-- ===== src/Tap/Prompt.antt =====
-- What the expression PROMPT accepts, in words: one prompt, whole, and nothing typed behind it.
use mathlib.Core.List.{append-nil}
use bashtion_wasm.Base.{
  ℕ, ◌≡◌, ◌↔◌, refl, sym, true, false, [], ◌∷◌, ◌++◌, ◌⊎◌, inl, inr, arith, ==_iff, Str,
}
use bashtion_wasm.Regex.{is_empty, test}
use bashtion_wasm.Regex.Sound.{Takes, Matches, Found, passed, test-Found}
use bashtion_wasm.Tap.{mark, not_space, user_char, host_char, dir_char, prompt_head, prompt}

-- Ubuntu's `user@host:dir`: only the directory may hold spaces, and no part holds a marker.
pub record IsUserHostDir (p : Str) : Type 0 where
  pub u : ℕ
  pub user : Str
  pub h : ℕ
  pub host : Str
  pub dir : Str
  pub splits : p ≡ u ∷ (user ++ (b'@' ∷ h ∷ (host ++ (b':' ∷ dir))))
  pub user_chars : Takes user_char (u ∷ user)
  pub host_chars : Takes host_char (h ∷ host)
  pub dir_chars : Takes dir_char dir

-- A text with a marker and one blank at its end, and before them no white space or `user@host:dir`.
pub record IsPrompt (t : Str) : Type 0 where
  pub head : Str
  pub marker : ℕ
  pub splits : t ≡ head ++ (marker ∷ b' ' ∷ [])
  pub is_marker : mark marker ≡ true
  pub shape : Takes not_space head ⊎ IsUserHostDir head

head-shape : (b w s : Str) → Matches prompt_head b w s ↔ (Takes not_space w ⊎ IsUserHostDir w)
head-shape b w s = (to, from)
  where
    to : Matches prompt_head b w s → Takes not_space w ⊎ IsUserHostDir w
    to (inl plain) = inl plain
    to
          (inr (
            _,
            _,
            e,
            (_, user, e₁, (u, hu, e₂), us),
            (
              _,
              _,
              e₃,
              (at, ha, e₄),
              (_, _, e₅, (_, host, e₆, (h, hh, e₇), hs), (_, dir, e₈, (colon, hc, e₉), ds)),
            ),
          )) =
        inr (record {
          u = u;
          user = user;
          h = h;
          host = host;
          dir = dir;
          splits = ground (arith, (==_iff at 64).0 ha, (==_iff colon 58).0 hc);
          user_chars = (hu, us);
          host_chars = (hh, hs);
          dir_chars = ds;
        })

    from : Takes not_space w ⊎ IsUserHostDir w → Matches prompt_head b w s
    from (inl plain) = inl plain
    from (inr p) = inr (
      p.u ∷ p.user,
      _,
      p.splits,
      (p.u ∷ [], p.user, refl, (p.u, p.user_chars.0, refl), p.user_chars.1),
      (
        b'@' ∷ [],
        _,
        refl,
        (b'@', refl, refl),
        (
          p.h ∷ p.host,
          _,
          refl,
          (p.h ∷ [], p.host, refl, (p.h, p.host_chars.0, refl), p.host_chars.1),
          (b':' ∷ [], p.dir, refl, (b':', refl, refl), p.dir_chars),
        ),
      ),
    )

passed_some : (u b : Str) → is_empty b ≡ false → is_empty (passed b u) ≡ false
passed_some [] b e = e
passed_some (x ∷ u) b e = passed_some u (x ∷ b) refl

-- `^` holds only where nothing stands before.
start-nil : (u b : Str) → is_empty (passed b u) ≡ true → u ≡ []
start-nil [] b e = refl
start-nil (x ∷ u) b e = absurd (cc (passed_some u (x ∷ b) refl))

nil_of_empty : (s : Str) → is_empty s ≡ true → s ≡ []
nil_of_empty [] e = refl
nil_of_empty (x ∷ s) e = absurd (cc)

prompt-Found : (t : Str) → Found prompt t ↔ IsPrompt t
prompt-Found t = (to, from)
  where
    to : Found prompt t → IsPrompt t
    to
          (
            u,
            w,
            s,
            e,
            (
              x,
              _,
              e₁,
              (z, start),
              (
                head,
                tail,
                e₂,
                shape,
                (_, _, e₃, (m, hm, e₄), (_, _, e₅, (blank, hb, e₆), (e₇, end))),
              ),
            ),
          ) =
        record {
          head = head;
          marker = m;
          splits = ground (
            arith,
            append-nil w,
            nil_of_empty s end,
            start-nil u [] start,
            (==_iff blank 32).0 hb,
          );
          is_marker = hm;
          shape = (head-shape (passed (passed [] u) x) head (tail ++ s)).0 shape;
        }

    from : IsPrompt t → Found prompt t
    from p = (
      [],
      t,
      [],
      sym (append-nil t),
      (
        [],
        t,
        refl,
        (refl, refl),
        (
          p.head,
          _,
          p.splits,
          (head-shape [] p.head (p.marker ∷ b' ' ∷ [])).1 p.shape,
          (
            p.marker ∷ [],
            _,
            refl,
            (p.marker, p.is_marker, refl),
            (b' ' ∷ [], [], refl, (b' ', refl, refl), (refl, refl)),
          ),
        ),
      ),
    )

-- The expression accepts exactly the prompts, whatever else stands on the line.
pub test-prompt : (t : Str) → (test prompt t ≡ true) ↔ IsPrompt t
test-prompt t = (
  λ e. (prompt-Found t).0 ((test-Found prompt t).0 e),
  λ p. (test-Found prompt t).1 ((prompt-Found t).1 p),
)
