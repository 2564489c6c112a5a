-- ===== src/Samples/Lines.antt =====
-- Lines with selectors.
use rattler_build.Prelude.{◌≡◌, refl, some, ok, codes, text_eq, if◌then◌else◌}
use rattler_build.Prelude.Strings.{trim}
use rattler_build.Variants.Selectors.{ParsedLine, Selecting, parse_line, select_lines}
use rattler_build.Variants.Selected.{IsPlain, print_line, parse_line-print_line}

abbrev line : ParsedLine
line = record { content = codes "  - 3.10"; condition = some (codes "unix") }

parse_line-print_line_example : parse_line (print_line line) ≡ line
unfolding IsPlain trim
parse_line-print_line_example = parse_line-print_line line (refl, refl, refl)

abbrev on_unix : Selecting
on_unix = record {
  render_str = λ s.
      if text_eq s (codes "{% if unix %}true{% else %}false{% endif %}")
      then ok (codes "true")
      else ok (codes "false");
  is_number = λ s. text_eq s (codes "3.10");
}

selects :
    select_lines on_unix (codes "python:\n  - 3.9.1  # [win]\n  - 3.10  # [unix]\n")
    ≡ codes "python:\n  - \"3.10\""
unfolding select_lines text_eq
selects = refl
