-- ===== src/Metrics/Registry/Accepted.antt =====
-- The options that the crate `prometheus` documents as valid, for src/metrics/registry.rs.
use Prim.Native.Char.{code}
use toutates.Base.{
  ℕ, ltb, leb, ◌==◌, same_text, List, [], ◌∷◌, Bool, true, false, not, ◌&&◌, ◌||◌, String,
}
use toutates.Metrics.Registry.{Kind, counter, gauge, histogram, Opts}

abbrev codes : String → List ℕ
codes String.[] = []
codes (String.◌∷◌ c s) = code c ∷ codes s

-- A letter or an underscore.
abbrev is_label_start : ℕ → Bool
is_label_start c = (leb b'a' c && leb c b'z') || (leb b'A' c && leb c b'Z') || (c == b'_')

abbrev is_digit : ℕ → Bool
is_digit c = leb b'0' c && leb c b'9'

abbrev all_label : List ℕ → Bool
all_label [] = true
all_label (c ∷ cs) = (is_label_start c || is_digit c) && all_label cs

-- `[a-zA-Z_][a-zA-Z0-9_]*`
abbrev is_label : List ℕ → Bool
is_label [] = false
is_label (c ∷ cs) = is_label_start c && all_label cs

abbrev all_name : List ℕ → Bool
all_name [] = true
all_name (c ∷ cs) = (is_label_start c || is_digit c || (c == b':')) && all_name cs

-- `[a-zA-Z_:][a-zA-Z0-9_:]*`
abbrev is_name : List ℕ → Bool
is_name [] = false
is_name (c ∷ cs) = (is_label_start c || (c == b':')) && all_name cs

abbrev is_among : String → List String → Bool
is_among name [] = false
is_among name (n ∷ ns) = same_text n name || is_among name ns

-- Labels that are allowed and differ.
abbrev are_labels : List String → Bool
are_labels [] = true
are_labels (l ∷ ls) = is_label (codes l) && not (is_among l ls) && are_labels ls

abbrev has_text : List ℕ → Bool
has_text [] = false
has_text (c ∷ cs) = true

abbrev pub has_bounds : Kind → Bool
has_bounds counter = true
has_bounds gauge = true
has_bounds (histogram b) = ltb 0 b.start && ltb 1 b.factor && ltb 0 b.count

-- The label `le` is that of a histogram's bounds.
abbrev keeps_le : Kind → List String → Bool
keeps_le counter labels = true
keeps_le gauge labels = true
keeps_le (histogram b) labels = not (is_among "le" labels)

unfoldable pub accepts : Opts → Bool
accepts o =
    has_bounds o.kind
    && is_name (codes o.name)
    && has_text (codes o.help)
    && are_labels o.labels
    && keeps_le o.kind o.labels
