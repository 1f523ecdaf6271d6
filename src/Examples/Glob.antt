-- ===== src/Examples/Glob.antt =====
-- Patterns of SERVICE_DIRECTORIES (internal/config/glob.go).
use archiver.Shared.{bytes_beq, codes, cut_prefix, false, has_prefix, refl, true, ◌↔◌, ◌≡◌}
use archiver.Config.Glob.{match_name}
use archiver.Config.Glob.Matching.{Matches}
use archiver.Config.Glob.Matching.Complete.{hidden_from, match_name_iff}

match_name_class_test : match_name (codes "[!a-c]*[[:digit:]]") (codes "dir7") ≡ true
unfolding match_name has_prefix cut_prefix bytes_beq
match_name_class_test = refl

match_name_hidden_test : match_name (codes "*") (codes ".git") ≡ false
unfolding match_name has_prefix
match_name_hidden_test = refl

match_name_unclosed_test : match_name (codes "[a") (codes "[a") ≡ true
unfolding match_name has_prefix
match_name_unclosed_test = refl

match_name_iff_example : (match_name (codes "a*[0-9]?") (codes "app-12") ≡ true) ↔ (
    (hidden_from (codes "a*[0-9]?") (codes "app-12") ≡ false)
    × Matches (codes "a*[0-9]?") (codes "app-12"))
match_name_iff_example = match_name_iff (codes "a*[0-9]?") (codes "app-12")
