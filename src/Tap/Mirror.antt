-- ===== src/Tap/Mirror.antt =====
-- The live screen and the mirror can never disagree.
use bashtion_wasm.Base.{
  ◌≡◌, refl, sym, ◌∙◌, ap, List, [], ◌∷◌, Option, Bool-cases, inl, inr, Str, str_eq, str_eq_sound,
}
use bashtion_wasm.Screen.Display.{Geometry}
use bashtion_wasm.Screen.Parser.{write}
use bashtion_wasm.Screen.Bounds.Parser.{make_screen-IsSound}
use bashtion_wasm.Screen.Chunks.{write-append, write-nil}
use bashtion_wasm.Tap.{Page, install, rebuilt, on_write, screen_of}

-- The model holds what its own text draws, at the one geometry of the session.
abbrev pub InStep : Option Geometry → Page → Type 0
InStep g p = p.tap.screen ≡ rebuilt g p.tap.text

install-InStep : (g : Option Geometry) → InStep g (install g)
unfolding install
install-InStep g = sym (write-nil g (make_screen-IsSound g))

-- The screen that is read is the one that the whole mirror draws, even where something has
-- replaced the mirror.
pub screen_of-rebuilt :
    (g : Option Geometry) (p : Page) → InStep g p → screen_of g p ≡ rebuilt g p.serial
unfolding screen_of
screen_of-rebuilt g p h = elim (Bool-cases (str_eq p.serial p.tap.text)) [
  | inl same ↦ rw same (h ∙ ap (rebuilt g) (sym (str_eq_sound p.serial p.tap.text same)))
  | inr replaced ↦ rw replaced
]

on_write-screen :
    (g : Option Geometry) (p : Page) (s : Str)
    → (on_write g p s).tap.screen ≡ write g (screen_of g p) s
unfolding on_write screen_of
on_write-screen g p s = refl

pub on_write-InStep :
    (g : Option Geometry) (p : Page) (s : Str) → InStep g p → InStep g (on_write g p s)
unfolding on_write
on_write-InStep g p s h =
    on_write-screen g p s
    ∙ ap (λ t. write g t s) (screen_of-rebuilt g p h)
    ∙ sym (write-append g p.serial s (make_screen-IsSound g))

-- What happens to a window: a chunk arrives, or some other code replaces the mirror.
pub data Event : Type 0 where
  chunk replace : Str → Event

pub on_event : Option Geometry → Page → Event → Page
on_event g p (chunk s) = on_write g p s
on_event g p (replace s) = record p { serial = s }

pub session : Option Geometry → Page → List Event → Page
session g p [] = p
session g p (e ∷ es) = session g (on_event g p e) es

on_event-InStep :
    (g : Option Geometry) (e : Event) (p : Page) → InStep g p → InStep g (on_event g p e)
unfolding on_event
on_event-InStep g (chunk s) p h = on_write-InStep g p s h
on_event-InStep g (replace s) p h = h

session-InStep :
    (g : Option Geometry) (es : List Event) (p : Page) → InStep g p → InStep g (session g p es)
unfolding session
session-InStep g [] p h = h
session-InStep g (e ∷ es) p h = session-InStep g es _ (on_event-InStep g e p h)

-- From install() on, whatever chunks arrive and whenever the mirror is replaced, at a geometry that
-- does not change, the screen that is read equals a new model to which the whole mirror is written.
pub screen_of-session :
    (g : Option Geometry) (es : List Event)
    → screen_of g (session g (install g) es) ≡ rebuilt g (session g (install g) es).serial
screen_of-session g es = screen_of-rebuilt g _ (session-InStep g es (install g) (install-InStep g))
