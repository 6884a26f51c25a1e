-- ===== src/Boot/Idle.antt =====
-- The geometry is typed into an idle console only.
use bashtion_wasm.Base.{◌≡◌, ◌⊎◌, inl, inr, refl, Bool, true, false, Option, none, some, if_keep}
use bashtion_wasm.Screen.Display.{Geometry}
use bashtion_wasm.Sync.{Sync, unusable, same, tell, attempt, request, fire}
use bashtion_wasm.Tap.{Page, at_prompt, screen_of}
use bashtion_wasm.Tap.Idle.{IsIdle, at_prompt_on-IsIdle}
use bashtion_wasm.Window.{Dimensions, Box, fit_window}
use bashtion_wasm.Boot.{can_send, on_resize, on_retry}

-- Nothing more was sent, or all of this holds.
abbrev pub SentIf : Type 0 → Sync → Sync → Type 0
SentIf P before after = (after.sent ≡ before.sent) ⊎ P

tell-SentIf : (g : Geometry) (ok : Bool) (s : Sync) → SentIf (ok ≡ true) s (tell g ok s)
unfolding tell
tell-SentIf g true s = inr refl
tell-SentIf g false s = if_keep (SentIf (false ≡ true) s) (same s.told g) (inl refl) (inl refl)

attempt-SentIf :
    (g : Option Geometry) (ok : Bool) (s : Sync) → SentIf (ok ≡ true) s (attempt g ok s)
unfolding attempt
attempt-SentIf none ok s = inl refl
attempt-SentIf (some g) ok s =
    if_keep (SentIf (ok ≡ true) s) (unusable (some g)) (inl refl) (tell-SentIf g ok s)

fire-SentIf : (g : Option Geometry) (ok : Bool) (s : Sync) → SentIf (ok ≡ true) s (fire g ok s)
unfolding fire
fire-SentIf g ok s = if_keep (SentIf (ok ≡ true) s) s.timer (attempt-SentIf g ok s) (inl refl)

-- Booted, with no operation running, and idle.
pub record MayType (booted busy : Bool) (g : Option Geometry) (p : Page) : Type 0 where
  pub up : booted ≡ true
  pub free : busy ≡ false
  pub idle : IsIdle (screen_of g p)

may_type :
    (booted busy : Bool) (g : Option Geometry) (p : Page)
    → can_send booted busy g p ≡ true
    → MayType booted busy g p
unfolding at_prompt
may_type true false g p h = record {
  up = refl;
  free = refl;
  idle = at_prompt_on-IsIdle (screen_of g p) h;
}
may_type true true g p h = absurd (cc)
may_type false busy g p h = absurd (cc)

sent_if :
    {P Q : Type 0} (before after : Sync) → (P → Q) → SentIf P before after → SentIf Q before after
sent_if before after f (inl e) = inl e
sent_if before after f (inr p) = inr (f p)

-- Neither a resize nor a retry sends the guest anything, unless the page has booted, no save, load,
-- checkpoint or rollback runs, and the console is idle: no command has the terminal, and the line is a
-- whole prompt with nothing behind or below it.
pub resize-MayType :
    (booted busy : Bool) (d : Option Dimensions) (b : Option Box) (term : Geometry) (p : Page)
    (s : Sync)
    → SentIf
        (MayType booted busy (some (fit_window d b term).term) p)
        s
        (on_resize booted busy d b term p s).1
      × SentIf (MayType booted busy (some term) p) s (on_retry booted busy term p s)
unfolding on_resize on_retry request
resize-MayType booted busy d b term p s =
    let g = some (fit_window d b term).term in
    let ok = can_send booted busy g p in
    let ok_later = can_send booted busy (some term) p in
    (
      sent_if s (attempt g ok (record s { timer = false })) (may_type booted busy g p)
          (attempt-SentIf g ok (record s { timer = false })),
      sent_if s (fire (some term) ok_later s) (may_type booted busy (some term) p)
          (fire-SentIf (some term) ok_later s),
    )
