-- ===== src/Python/Text.antt =====
-- The methods of Python's `str` that the program calls: strip, upper, startswith, removeprefix and
-- removesuffix. A text is a sequence of Unicode scalar values (no lone surrogates).
use Prim.Native.Char.{Char, code}
use Prim.Native.String.{[], ◌∷◌, ◌++◌}
use dataveda_nifty_agent.Prelude.{
  String, Bool, true, false, ◌&&◌, ◌||◌, Option, none, some, leb, ◌==◌, str_eq, if◌then◌else◌,
}

-- `str.isspace` of one character: what `strip()` removes.
unfoldable pub is_space : Char → Bool
is_space ch =
    let c = code ch in
    (leb 9 c && leb c 13)
    || (leb 28 c && leb c 32)
    || c == 133
    || c == 160
    || c == 5760
    || (leb 8192 c && leb c 8202)
    || c == 8232
    || c == 8233
    || c == 8239
    || c == 8287
    || c == 12288

unfoldable pub lstrip : String → String
lstrip [] = []
lstrip (c ∷ s) = let rest = lstrip s in if is_space c then rest else c ∷ s

abbrev rstrip_cons : Char → String → String
rstrip_cons c [] = if is_space c then [] else c ∷ []
rstrip_cons c (d ∷ s) = c ∷ d ∷ s

unfoldable pub rstrip : String → String
rstrip [] = []
rstrip (c ∷ s) = rstrip_cons c (rstrip s)

unfoldable pub strip : String → String
unfolding lstrip rstrip is_space
strip s = rstrip (lstrip s)

-- `upper` of one character: the letters a to z by the table, all other characters by `other`,
-- which is the interpreter's Unicode table (it may give more than one character).
module _ (other : Char → String) where
  pub upper_char : String → String → Char → String
  upper_char (l ∷ lowers) (u ∷ uppers) c =
      let rest = upper_char lowers uppers c in if code c == code l then u ∷ [] else rest
  upper_char _ _ c = other c

  unfoldable pub upper : String → String
  unfolding upper_char
  upper [] = []
  upper (c ∷ s) = upper_char "abcdefghijklmnopqrstuvwxyz" "ABCDEFGHIJKLMNOPQRSTUVWXYZ" c ++ upper s

-- What follows a prefix, if the text has it: `startswith` and `removeprefix` in one.
unfoldable pub after_prefix : String → String → Option String
after_prefix [] s = some s
after_prefix (p ∷ ps) [] = none
after_prefix (p ∷ ps) (c ∷ s) = if code p == code c then after_prefix ps s else none

unfoldable pub remove_suffix : String → String → String
remove_suffix suffix [] = []
remove_suffix suffix (c ∷ s) = if str_eq (c ∷ s) suffix then [] else c ∷ remove_suffix suffix s

-- The text is not empty: `bool(s)`.
abbrev pub nonempty : String → Bool
nonempty [] = false
nonempty (c ∷ s) = true
