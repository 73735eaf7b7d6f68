-- ===== src/Text.antt =====
-- What the program uses of Python's `str`: strip and the truth of a text.
use Prim.Native.Char.{code}
use Prim.Native.String.{[] as end_of_text, ◌∷◌ as cons_text}
use pmkt_core.Prelude.{
  ℕ, Bool, not, ◌&&◌, ◌||◌, List, [], ◌∷◌, String, ◌==◌, nat_eq, string_eq, leb, if◌then◌else◌, ◌≡◌,
  refl,
}

-- str.isspace of one character: the Unicode white space that `strip` removes
is_space : ℕ → Bool
is_space c =
    (leb 9 c && leb c 13)
    || (leb 28 c && leb c 32)
    || c == 133
    || c == 160
    || c == 5760
    || (leb 8192 c && leb c 8202)
    || c == 8232
    || c == 8233
    || c == 8239
    || c == 8287
    || c == 12288

lstrip : String → String
lstrip end_of_text = ""
lstrip (cons_text c s) = let rest = lstrip s in if is_space (code c) then rest else cons_text c s

rstrip : String → String
rstrip end_of_text = ""
rstrip (cons_text c s) =
    let rest = rstrip s in if rest == "" && is_space (code c) then "" else cons_text c rest

-- value.strip()
unfoldable pub strip : String → String
unfolding is_space lstrip rstrip
strip s = rstrip (lstrip s)

-- bool(text)
unfoldable pub truthy : String → Bool
truthy s = not (s == "")

-- `_quality_flags` of src/pmkt/streaming/supervisor.py for an iterable of texts
unfoldable pub stripped : List String → List String
unfolding strip truthy
stripped [] = []
stripped (s ∷ rest) = if truthy (strip s) then strip s ∷ stripped rest else stripped rest

strip_both : strip "  a b\n" ≡ "a b"
unfolding strip
strip_both = refl
