-- ===== src/Examples/TargetCases.antt =====
-- Targets as texts, tried.
use vuln_proof_claw.Common.{false, ◌≡◌, refl, none, some, any, chars, String, Option}
use vuln_proof_claw.Common.Results.{ok, err}
use vuln_proof_claw.Domain.Errors.{Raises, domain_validation}
use vuln_proof_claw.Policy.Scope.{NormalizedTarget}
use vuln_proof_claw.Policy.Scope.Paths.{is_control, normalize_path}
use vuln_proof_claw.Policy.Scope.Rules.{normalize_hostname, normalize_port, normalize_scheme}
use vuln_proof_claw.Policy.Scope.Targets.{UrlLibrary, SplitUrl, normalize_target, urlsplit}
use vuln_proof_claw.Policy.Scope.Targets.Known.{IsTarget, normalize_target-IsTarget}
use vuln_proof_claw.Examples.{rule_library, lower_char}

-- No text is an address of IPv6, and texts are ASCII.
abbrev url_library : UrlLibrary
url_library = record { is_ipv6 = λ text. false; hides_delimiter = λ text. false }

abbrev read : String → Option (Raises NormalizedTarget)
read = normalize_target rule_library url_library

abbrev page : NormalizedTarget
page = record { scheme = "https"; host = "example.com"; port = 8443; path = "/b" }

read_page : read " HTTPS://Example.COM.:8443/a/../%62?x=1#y" ≡ some (ok page)
unfolding normalize_target normalize_scheme normalize_hostname normalize_port normalize_path
    lower_char
read_page = refl

credentials :
    read "https://user@example.com/"
    ≡ some (err (domain_validation "target must not contain embedded credentials"))
unfolding normalize_target normalize_scheme normalize_hostname normalize_port normalize_path
    lower_char
credentials = refl

wrong_port :
    read "https://example.com:70000/" ≡ some (err (domain_validation "target port is invalid"))
unfolding normalize_target normalize_scheme normalize_hostname normalize_port normalize_path
    lower_char
wrong_port = refl

-- The port zero counts as missing.
zero_port :
    read "https://example.com:0/"
    ≡ some (ok (record { scheme = "https"; host = "example.com"; port = 443; path = "/" }))
unfolding normalize_target normalize_scheme normalize_hostname normalize_port normalize_path
    lower_char
zero_port = refl

-- The ValueError of `urlsplit` is not caught.
open_bracket : read "http://[" ≡ none
unfolding normalize_target
open_bracket = refl

normalize_target-IsTarget_example :
    (any is_control (chars " HTTPS://Example.COM.:8443/a/../%62?x=1#y") ≡ false)
    × (parsed : SplitUrl) × (urlsplit url_library " HTTPS://Example.COM.:8443/a/../%62?x=1#y"
        ≡ some parsed)
    × IsTarget rule_library parsed page
normalize_target-IsTarget_example =
    normalize_target-IsTarget rule_library url_library " HTTPS://Example.COM.:8443/a/../%62?x=1#y"
      read_page
