-- ===== src/Policy/Scope/Targets/Known.antt =====
-- The targets that `normalize_target` of policy/scope.py gives.
use text.Mathlib.TextBridge.{of_list}
use vuln_proof_claw.Common.{
  false, ◌≡◌, ◌∙◌, ◌≤◌, subst, ap, some, String, any, is_empty, chars, is_code, arith, Option-cases,
  inl, inr,
}
use vuln_proof_claw.Common.Results.{ok, ok_inj, >>=-eq-ok}
use vuln_proof_claw.Domain.Errors.{refuse_if-eq-ok}
use vuln_proof_claw.Policy.Scope.{NormalizedTarget}
use vuln_proof_claw.Policy.Scope.Paths.{normalize_path, is_control}
use vuln_proof_claw.Policy.Scope.Paths.Confined.{IsConfined, normalize_path-IsConfined}
use vuln_proof_claw.Policy.Scope.Rules.{
  RuleLibrary, normalize_hostname, normalize_port, normalize_scheme,
}
use vuln_proof_claw.Policy.Scope.Rules.Normal.{
  IsHostname, IsScheme, normalize_hostname-IsHostname, normalize_port-in_range, normalize_port-same,
  normalize_scheme-IsScheme,
}
use vuln_proof_claw.Policy.Scope.Targets.{
  UrlLibrary, SplitUrl, urlsplit, target_of, normalize_target, host_of, hostname_of, port_of,
  parsed_port,
}

module _ {Network : Type 0} (library : RuleLibrary Network) where
  -- The target that the parts of a URL name, which holds no credentials.
  pub record IsTarget (parsed : SplitUrl) (t : NormalizedTarget) : Type 0 where
    pub scheme : IsScheme library t.scheme
    pub host : IsHostname library t.host
    pub port : (1 ≤ t.port) × (t.port ≤ 65535)
    pub path : IsConfined t.path
    pub no_credentials : any (is_code b'@') parsed.netloc ≡ false
    pub named :
        normalize_hostname library (of_list (hostname_of library (host_of parsed.netloc)))
        ≡ ok t.host
    pub located : normalize_path (of_list parsed.path) ≡ ok t.path
    pub numbered : parsed_port t.scheme (port_of parsed.netloc) ≡ ok t.port

  target_of-IsTarget :
      (parsed : SplitUrl) {t : NormalizedTarget}
      → target_of library parsed ≡ ok t
      → IsTarget parsed t
  unfolding target_of
  target_of-IsTarget parsed {t} h =
      let text = library.lower (of_list parsed.scheme) in
      let (scheme, known, h1) = >>=-eq-ok (normalize_scheme library text) _ h in
      let (plain_url, h2) =
        refuse_if-eq-ok (any (is_code b'@') parsed.netloc)
          "target must not contain embedded credentials" _ h1 in
      let (_, h3) =
        refuse_if-eq-ok (is_empty (host_of parsed.netloc)) "target must include a hostname" _ h2 in
      let name = of_list (hostname_of library (host_of parsed.netloc)) in
      let (host, named, h4) = >>=-eq-ok (normalize_hostname library name) _ h3 in
      let (given, numbered, h5) = >>=-eq-ok (parsed_port scheme (port_of parsed.netloc)) _ h4 in
      let (port, in_range, h6) = >>=-eq-ok (normalize_port given) _ h5 in
      let (path, located, h7) = >>=-eq-ok (normalize_path (of_list parsed.path)) _ h6 in
      subst (IsTarget parsed) (ok_inj h7) (record {
        scheme = normalize_scheme-IsScheme library text known;
        host = normalize_hostname-IsHostname library name named;
        port = normalize_port-in_range given in_range;
        path = normalize_path-IsConfined (of_list parsed.path) located;
        no_credentials = plain_url;
        named = named;
        located = located;
        numbered = numbered ∙ ap ok (normalize_port-same given in_range);
      })

  -- A target that `normalize_target` gives was read from a text without control characters. Its scheme
  -- is http or https, its host an address as `ipaddress` prints it or a name of at most 253 characters
  -- with good labels, its port lies between 1 and 65535, and its path is confined. Host, port and path
  -- are those of the parts that `urlsplit` gives, in whose network location no credentials stand.
  pub normalize_target-IsTarget :
      (url_library : UrlLibrary) (value : String) {t : NormalizedTarget}
      → normalize_target library url_library value ≡ some (ok t)
      → (any is_control (chars value) ≡ false)
        × (parsed : SplitUrl) × (urlsplit url_library value ≡ some parsed)
        × IsTarget parsed t
  unfolding normalize_target
  normalize_target-IsTarget url_library value {t} h =
      let printable : any is_control (chars value) ≡ false = ground arith in
      elim (Option-cases (urlsplit url_library value)) [
        | inl failed ↦ cc (rw (printable, failed) at h)
        | inr (parsed, e) ↦ (printable, parsed, e, target_of-IsTarget parsed (ground (arith, e, h)))
      ]
