-- ===== src/Examples/QueryCases.antt =====
-- Queries, tried.
use mathlib.Core.List.{flat_map}
use vuln_proof_claw.Common.{arith, true, ◌≡◌, refl, all, chars, is_empty, to_char}
use vuln_proof_claw.Common.Results.{ok, err}
use vuln_proof_claw.Domain.Errors.{domain_validation}
use vuln_proof_claw.Policy.Scope.Queries.{normalize_query, parse_qsl}
use vuln_proof_claw.Policy.Scope.Queries.Sent.{is_query_char}
use vuln_proof_claw.Policy.Scope.Queries.Again.{
  normalize_query-parse_qsl, normalize_query-normalize_query,
}

-- An octet that is no text is replaced, and a space may be written in two ways.
query : normalize_query "a=b+c%20d&&name&x=%e9%2f=" ≡ ok "a=b+c+d&name=&x=%EF%BF%BD%2F%3D"
unfolding normalize_query to_char flat_map
query = refl

euro : normalize_query "€=%e2%82%ac%e2%82" ≡ ok "%E2%82%AC=%E2%82%AC%EF%BF%BD"
unfolding normalize_query to_char flat_map
euro = refl

-- Surrogates, numbers that are too large, and characters that are not finished.
not_text :
    normalize_query "a=%ed%a0%80%f4%90%80%c3é%f0%90%80x"
    ≡ ok "a=%EF%BF%BD%EF%BF%BD%EF%BF%BD%EF%BF%BD%EF%BF%BD%EF%BF%BD%EF%BF%BD%C3%A9%EF%BF%BDx"
unfolding normalize_query to_char flat_map
not_text = refl

only_marks :
    normalize_query "&&" ≡ err (domain_validation "query must contain at least one parameter")
unfolding normalize_query to_char flat_map
only_marks = refl

normalize_query-parse_qsl_example :
    (parse_qsl (chars "a=b+c+d&name=&x=%EF%BF%BD%2F%3D")
      ≡ parse_qsl (chars "a=b+c%20d&&name&x=%e9%2f="))
    × (all is_query_char (chars "a=b+c+d&name=&x=%EF%BF%BD%2F%3D") ≡ true)
    × (is_empty (chars "a=b+c+d&name=&x=%EF%BF%BD%2F%3D")
        ≡ is_empty (chars "a=b+c%20d&&name&x=%e9%2f="))
normalize_query-parse_qsl_example = normalize_query-parse_qsl "a=b+c%20d&&name&x=%e9%2f=" query

normalize_query-normalize_query_example :
    normalize_query "a=b+c+d&name=&x=%EF%BF%BD%2F%3D" ≡ ok "a=b+c+d&name=&x=%EF%BF%BD%2F%3D"
normalize_query-normalize_query_example =
    normalize_query-normalize_query "a=b+c%20d&&name&x=%e9%2f=" query (ground arith)
