-- ===== src/Base/Chars.antt =====
-- Texts character by character: `str::trim` and its like, and the bytes of a text.
use Prim.Native.Nat.{ℕ, ◌+◌, ◌/◌, ◌%◌}
use Prim.Native.Char.{code}
use Prim.Native.String.{String, [], ◌∷◌, len, slice}
use mathlib.Core.Bool.{Bool, true, false, ◌&&◌, ◌||◌}
use mathlib.Core.Option.{Option, none, some}
use mathlib.Core.Path.{◌≡◌, refl}
use mathlib.Core.List.{List, [] as nil, ◌∷◌ as cons}
use text.Mathlib.Text.{find?, starts_with}
use cotrex_ai.Base.Tests.{ltb, leb, nat_beq, if◌then◌else◌}

-- `char::is_whitespace`
abbrev is_whitespace : ℕ → Bool
is_whitespace c =
    (leb 9 c && leb c 13)
    || nat_beq c 32
    || nat_beq c 133
    || nat_beq c 160
    || nat_beq c 5760
    || (leb 8192 c && leb c 8202)
    || nat_beq c 8232
    || nat_beq c 8233
    || nat_beq c 8239
    || nat_beq c 8287
    || nat_beq c 12288

abbrev pub is_empty_text : String → Bool
is_empty_text [] = true
is_empty_text (c ∷ s) = false

abbrev trim_start : String → String
trim_start [] = []
trim_start (c ∷ s) = let rest = trim_start s in if is_whitespace (code c) then rest else c ∷ s

abbrev trim_end : String → String
trim_end [] = []
trim_end (c ∷ s) =
    let rest = trim_end s in if is_whitespace (code c) && is_empty_text rest then [] else c ∷ rest

-- `str::trim`
unfoldable pub trim : String → String
trim s = trim_end (trim_start s)

-- `str::contains`
abbrev pub contains_text : String → String → Bool
contains_text s t = elim (find? s t) [ none ↦ false | some i ↦ true ]

-- `str::strip_prefix`
abbrev pub strip_text : String → String → Option String
strip_text s t = if starts_with s t then some (slice s (len t) (len s)) else none

-- The UTF-8 of a character, in front of the bytes of what follows.
abbrev encode_char : ℕ → List ℕ → List ℕ
encode_char c rest =
    if ltb c 128
    then cons c rest
    else if ltb c 2048
    then cons (192 + c / 64) (cons (128 + c % 64) rest)
    else if ltb c 65536
    then cons (224 + c / 4096) (cons (128 + c / 64 % 64) (cons (128 + c % 64) rest))
    else cons (240 + c / 262144)
        (cons (128 + c / 4096 % 64) (cons (128 + c / 64 % 64) (cons (128 + c % 64) rest)))

-- `String::into_bytes`
unfoldable pub into_bytes : String → List ℕ
into_bytes [] = nil
into_bytes (c ∷ s) = encode_char (code c) (into_bytes s)

bytes_of_euro : into_bytes "a€" ≡ cons 97 (cons 226 (cons 130 (cons 172 nil)))
unfolding into_bytes
bytes_of_euro = refl

trimmed : trim " \n a b  " ≡ "a b"
unfolding trim
trimmed = refl
