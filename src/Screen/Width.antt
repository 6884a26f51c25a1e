-- ===== src/Screen/Width.antt =====
-- web/serialtap.js, width: how many columns a code point takes.
use bashtion_wasm.Base.{ℕ, Bool, ◌||◌, ◌&&◌, not, ◌==◌, leb, ltb, within, if◌then◌else◌}

unfoldable pub is_zero_width : ℕ → Bool
is_zero_width c =
    within 0x0300 0x036f c
    || within 0x1ab0 0x1aff c
    || within 0x1dc0 0x1dff c
    || within 0x200b 0x200f c
    || within 0x20d0 0x20ff c
    || within 0xfe00 0xfe0f c
    || within 0xfe20 0xfe2f c
    || within 0xe0100 0xe01ef c

unfoldable pub is_wide : ℕ → Bool
is_wide c =
    leb 0x1100 c
    && (leb c 0x115f
        || c == 0x2329
        || c == 0x232a
        || (within 0x2e80 0xa4cf c && not (c == 0x303f))
        || within 0xac00 0xd7a3 c
        || within 0xf900 0xfaff c
        || within 0xfe10 0xfe19 c
        || within 0xfe30 0xfe6f c
        || within 0xff00 0xff60 c
        || within 0xffe0 0xffe6 c
        || within 0x20000 0x2fffd c
        || within 0x30000 0x3fffd c)

unfoldable pub width : ℕ → ℕ
unfolding is_zero_width is_wide
width c = if ltb c 0x0300 then 1 else if is_zero_width c then 0 else if is_wide c then 2 else 1
