-- ===== src/Variants/Selected.antt =====
-- crates/rattler_build_variant_config/src/conda_build_config.rs: a line with a selector, written
-- and parsed.
use rattler_build.Prelude.{
  ℕ, ◌==◌, false, Option, none, some, [], ◌∷◌, ◌++◌, Text, any, codes, ◌≡◌, refl, ap, ap₂, sym,
  arith, append_assoc, any-append, ◌∙◌,
}
use rattler_build.Prelude.Strings.{is_whitespace, trim, trim_end}
use rattler_build.Variants.Selectors.{
  split_once, after_prefix, strip_last, ParsedLine, bracketed, parse_line,
}

-- The line with a content and, after two spaces, a selector.
unfoldable pub print_line : ParsedLine → Text
print_line line = elim line.condition [
  | none ↦ line.content
  | some selector ↦ line.content ++ (codes "  # [" ++ (selector ++ codes "]"))
]

-- A content without a `#` or white space at its end, and a selector without white space at its ends.
unfoldable pub IsPlain : ParsedLine → Type 0
IsPlain line =
    (any (λ c. c == b'#') line.content ≡ false)
    × (trim_end line.content ≡ line.content)
    × (elim line.condition [ none ↦ Unit | some selector ↦ trim selector ≡ selector ])

split_once-none : (a : Text) → any (λ c. c == b'#') a ≡ false → split_once b'#' a ≡ none
unfolding split_once
split_once-none [] h = refl
split_once-none (c ∷ a) h = ground (arith, split_once-none a)

split_once-++ :
    (a b : Text) → any (λ c. c == b'#') a ≡ false → split_once b'#' (a ++ (b'#' ∷ b)) ≡ some (a, b)
unfolding split_once
split_once-++ [] b h = refl
split_once-++ (c ∷ a) b h = ground (arith, split_once-++ a b)

trim_end-++ : (a s : Text) → trim_end s ≡ [] → trim_end (a ++ s) ≡ trim_end a
unfolding trim_end
trim_end-++ [] s h = h
trim_end-++ (c ∷ a) s h = rw (trim_end-++ a s h) refl

trim_end-snoc :
    (s : Text) (c : ℕ) → is_whitespace c ≡ false → trim_end (s ++ (c ∷ [])) ≡ s ++ (c ∷ [])
unfolding trim_end
trim_end-snoc [] c h = rw (h) refl
trim_end-snoc (d ∷ []) c h = rw (trim_end, h) refl
trim_end-snoc (d ∷ e ∷ s) c h = rw (trim_end-snoc (e ∷ s) c h) refl

strip_last-snoc : (s : Text) (c : ℕ) → strip_last c (s ++ (c ∷ [])) ≡ some s
unfolding strip_last
strip_last-snoc [] c = ground arith
strip_last-snoc (d ∷ []) c = ground arith
strip_last-snoc (d ∷ e ∷ s) c = rw (strip_last-snoc (e ∷ s) c) refl

bracketed-brackets :
    (selector : Text) → bracketed (codes " [" ++ (selector ++ codes "]")) ≡ some (trim selector)
unfolding bracketed trim after_prefix
bracketed-brackets selector =
    rw (bracketed, trim, trim_end-snoc (b'[' ∷ selector) b']' refl)
      (rw (strip_last-snoc selector b']') refl)

parse_line_comment :
    (before comment : Text)
    → any (λ c. c == b'#') before ≡ false
    → parse_line (before ++ (b'#' ∷ comment))
      ≡ record { content = trim_end before; condition = bracketed comment }
unfolding parse_line
parse_line_comment before comment h = rw (parse_line, split_once-++ before comment h) refl

parse_line_plain :
    (content : Text)
    → any (λ c. c == b'#') content ≡ false
    → parse_line content ≡ record { content = trim_end content; condition = none }
unfolding parse_line
parse_line_plain content h = rw (parse_line, split_once-none content h) refl

parse_line-fields :
    (content : Text) (condition : Option Text)
    → IsPlain (record { content = content; condition = condition })
    → parse_line (print_line (record { content = content; condition = condition }))
      ≡ record { content = content; condition = condition }
unfolding print_line IsPlain trim_end
parse_line-fields content none (no_hash, trimmed, _) =
    parse_line_plain content no_hash ∙ ap (λ c. record { content = c; condition = none }) trimmed
parse_line-fields content (some selector) (no_hash, trimmed, plain) =
    ap parse_line (sym (append_assoc content (codes "  ") (codes "# [" ++ (selector ++ codes "]"))))
    ∙ parse_line_comment (content ++ codes "  ") (codes " [" ++ (selector ++ codes "]"))
        (any-append (λ c. c == b'#') content (codes "  ") ∙ rw (no_hash) refl)
    ∙ ap₂ (λ c d. record { content = c; condition = d })
        (trim_end-++ content (codes "  ") refl ∙ trimmed)
        (bracketed-brackets selector ∙ ap some plain)

-- If a content has no `#` and no white space at its end, and its selector, if it has one, no
-- white space at its ends, the line with the content and, after two spaces and a `#`, the
-- selector in brackets is parsed into this content and selector.
pub parse_line-print_line : (line : ParsedLine) → IsPlain line → parse_line (print_line line) ≡ line
parse_line-print_line line plain = parse_line-fields line.content line.condition plain
