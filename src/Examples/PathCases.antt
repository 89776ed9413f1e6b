-- ===== src/Examples/PathCases.antt =====
-- Paths, tried.
use vuln_proof_claw.Common.{◌≡◌, refl, to_char}
use vuln_proof_claw.Common.Results.{ok, err}
use vuln_proof_claw.Domain.Errors.{domain_validation}
use vuln_proof_claw.Policy.Scope.Paths.{normalize_path}
use vuln_proof_claw.Policy.Scope.Paths.Confined.{IsConfined, normalize_path-IsConfined}
use vuln_proof_claw.Policy.Scope.Paths.Stable.{normalize_path-normalize_path}

-- Slashes that are too many, a dot, two dots that are encoded, and a letter of two octets.
decoded : normalize_path "//a/./b/%2e%2e/%c3%a9//" ≡ ok "/a/é"
unfolding normalize_path to_char
decoded = refl

empty_path : normalize_path "" ≡ ok "/"
unfolding normalize_path to_char
empty_path = refl

surrogate :
    normalize_path "/%ed%a0%80" ≡ err (domain_validation "path contains invalid UTF-8 encoding")
unfolding normalize_path to_char
surrogate = refl

nested :
    normalize_path "/%2525252525252541"
    ≡ err (domain_validation "path contains excessive nested encoding")
unfolding normalize_path to_char
nested = refl

-- A path that is accepted and whose normal form is refused.
kept_percent : normalize_path "/%25zz" ≡ ok "/%zz"
unfolding normalize_path to_char
kept_percent = refl

refused_percent :
    normalize_path "/%zz" ≡ err (domain_validation "path contains invalid percent encoding")
unfolding normalize_path to_char
refused_percent = refl

normalize_path-IsConfined_example : IsConfined "/a/é"
normalize_path-IsConfined_example = normalize_path-IsConfined "//a/./b/%2e%2e/%c3%a9//" decoded

normalize_path-normalize_path_example : normalize_path "/a/é" ≡ ok "/a/é"
normalize_path-normalize_path_example =
    normalize_path-normalize_path "//a/./b/%2e%2e/%c3%a9//" decoded refl
