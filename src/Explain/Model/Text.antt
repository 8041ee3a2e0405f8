-- ===== src/Explain/Model/Text.antt =====
-- `str::trim`, as the standard library defines it, on the UTF-8 bytes of a text.
use mongod_proxy.Prelude.{◌||◌, ◌&&◌, leb, drop, ◌==◌, length, if◌then◌else◌, ℕ, ◌∷◌, [], suc, zero}
use mongod_proxy.Bytes.Defs.{eq_bytes, Bytes}

white_space3 : ℕ → ℕ → Bytes → ℕ
white_space3 a b [] = 0
white_space3 a b (c ∷ s) =
    let ogham = a == 0xE1 && b == 0x9A && c == 0x80 in
    let general = leb 0x80 c && leb c 0x8A || c == 0xA8 || c == 0xA9 || c == 0xAF in
    let punctuation = a == 0xE2 && b == 0x80 && general in
    let medium = a == 0xE2 && b == 0x81 && c == 0x9F in
    let ideographic = a == 0xE3 && b == 0x80 && c == 0x80 in
    if ogham || punctuation || medium || ideographic then 3 else 0

white_space2 : ℕ → Bytes → ℕ
unfolding white_space3
white_space2 a [] = 0
white_space2 a (b ∷ s) = if a == 0xC2 && (b == 0x85 || b == 0xA0) then 2 else white_space3 a b s

-- How many bytes the `White_Space` character at the front has; 0 without one.
unfoldable pub white_space : Bytes → ℕ
unfolding white_space2
white_space [] = 0
white_space (a ∷ s) = if leb 9 a && leb a 13 || a == 32 then 1 else white_space2 a s

unfoldable pub skip_white : ℕ → Bytes → Bytes
unfolding white_space
skip_white zero s = s
skip_white (suc n) s =
    let rest = skip_white n (drop (white_space s) s) in if white_space s == 0 then s else rest

unfoldable pub trim_start : Bytes → Bytes
unfolding skip_white
trim_start s = skip_white (length s) s

-- A character stays when something behind it or in it is not white space.
unfoldable pub trim_end : Bytes → Bytes
unfolding trim_start
trim_end [] = []
trim_end (b ∷ s) =
    let rest = trim_end s in if eq_bytes (trim_start (b ∷ s)) [] then [] else b ∷ rest

unfoldable pub trim : Bytes → Bytes
unfolding trim_end trim_start
trim s = trim_end (trim_start s)
