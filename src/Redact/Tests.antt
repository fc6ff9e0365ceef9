-- ===== src/Redact/Tests.antt =====
-- Runs of utils/src/redact.rs, and the example of its theorem.
use infraweave.Prelude.{ℕ, ◌≡◌, refl, true, none, String, [], ◌∷◌, ◌++◌, eqb, if◌then◌else◌}
use infraweave.Redact.{
  is_sensitive_key, split_at_sensitive_key, mask_value, sanitize_cli_args, truncate_for_span,
}
use infraweave.Redact.Hidden.{AreAlike, argument, sanitize_cli_args-alike}

abbrev show_number : ℕ → String
show_number n = if eqb n 12 then "12" else "5"

padded_secret :
    sanitize_cli_args show_number
      ("init" ∷ "-backend-config=SECRET_key=aGVsbG8gZ29=" ∷ "-backend-config=key=a/b" ∷ [])
    ≡ "init -backend-config=SECRET_key=aGV***29=(12 chars) -backend-config=key=a/b"
unfolding sanitize_cli_args split_at_sensitive_key is_sensitive_key mask_value
padded_secret = refl

short_secret : mask_value show_number "hello" ≡ "***(5 chars)"
unfolding mask_value
short_secret = refl

no_cut : truncate_for_span show_number " short " ≡ "short"
unfolding truncate_for_span
no_cut = refl

not_split : split_at_sensitive_key "-backend-config=token" ≡ none
unfolding split_at_sensitive_key is_sensitive_key
not_split = refl

sensitive : is_sensitive_key "-backend-config=token" ≡ true
unfolding is_sensitive_key
sensitive = refl

alike : AreAlike "abcdefghijkl" "abcxxxxxxjkl"
alike = (refl, (λ h. (refl, refl)))

sanitize_cli_args-alike_example :
    sanitize_cli_args show_number
      (("init" ∷ []) ++ argument "-backend-config=token" "abcdefghijkl" ∷ "x" ∷ [])
    ≡ sanitize_cli_args show_number
        (("init" ∷ []) ++ argument "-backend-config=token" "abcxxxxxxjkl" ∷ "x" ∷ [])
sanitize_cli_args-alike_example =
    sanitize_cli_args-alike show_number ("init" ∷ []) ("x" ∷ []) "-backend-config=token"
      "abcdefghijkl" "abcxxxxxxjkl" not_split sensitive alike
