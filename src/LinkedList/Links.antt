-- ===== src/LinkedList/Links.antt =====
-- The cells of a list of kernel/lib/llist.h in their order, and what a write to a link does to it.
use sepples_os.Prelude.{
  ℕ, ◌≡◌, ◌≢◌, refl, sym, ap, ◌∙◌, ◌==◌, if◌then◌else◌, List, [], ◌∷◌, ◌++◌, update, ==_of_ne,
  ==_refl,
}

-- The cells behind `p` are `as`, each with links to both sides; the last has no next one.
abbrev pub Linked : (ℕ → ℕ) → (ℕ → ℕ) → ℕ → List ℕ → Type 0
Linked next prev p [] = next p ≡ 0
Linked next prev p (a ∷ cs) = (next p ≡ a) × (prev a ≡ p) × (a ≢ 0) × Linked next prev a cs

abbrev pub NotIn : ℕ → List ℕ → Type 0
NotIn q [] = Unit
NotIn q (a ∷ cs) = (q ≢ a) × NotIn q cs

abbrev pub Distinct : List ℕ → Type 0
Distinct [] = Unit
Distinct (a ∷ cs) = NotIn a cs × Distinct cs

pub update_ne : (f : ℕ → ℕ) (p v q : ℕ) → p ≢ q → update f p v q ≡ f q
update_ne f p v q ne = ap (λ b. if b then v else f q) (==_of_ne p q ne)

pub update_at : (f : ℕ → ℕ) (p v q : ℕ) → p ≡ q → update f p v q ≡ v
update_at f p v q e = ap (λ b. if b then v else f q) (ap (λ x. p == x) (sym e) ∙ ==_refl p)

pub Linked-update_next :
    (next prev : ℕ → ℕ) (q v p : ℕ) (cs : List ℕ)
    → q ≢ p
    → NotIn q cs
    → Linked next prev p cs
    → Linked (update next q v) prev p cs
Linked-update_next next prev q v p [] ne out l = update_ne next q v p ne ∙ l
Linked-update_next next prev q v p (a ∷ cs) ne (nea, out) (e, b, nz, l) =
    (update_ne next q v p ne ∙ e, b, nz, Linked-update_next next prev q v a cs nea out l)

pub Linked-update_prev :
    (next prev : ℕ → ℕ) (q v p : ℕ) (cs : List ℕ)
    → NotIn q cs
    → Linked next prev p cs
    → Linked next (update prev q v) p cs
Linked-update_prev next prev q v p [] out l = l
Linked-update_prev next prev q v p (a ∷ cs) (ne, out) (e, b, nz, l) =
    (e, update_ne prev q v a ne ∙ b, nz, Linked-update_prev next prev q v a cs out l)

-- The last of the cells.
unfoldable pub last_of : ℕ → List ℕ → ℕ
last_of p [] = p
last_of p (a ∷ cs) = last_of a cs

last_of-ne : (q p : ℕ) (cs : List ℕ) → q ≢ p → NotIn q cs → q ≢ last_of p cs
unfolding last_of
last_of-ne q p [] ne out = ne
last_of-ne q p (a ∷ cs) ne (nea, out) = last_of-ne q a cs nea out

pub Linked-last :
    (next prev : ℕ → ℕ) (p : ℕ) (cs : List ℕ) → Linked next prev p cs → next (last_of p cs) ≡ 0
unfolding last_of
Linked-last next prev p [] l = l
Linked-last next prev p (a ∷ cs) (e, b, nz, l) = Linked-last next prev a cs l

-- A new cell behind the last one.
pub Linked-append :
    (next prev : ℕ → ℕ) (p n : ℕ) (cs : List ℕ)
    → n ≢ 0
    → n ≢ p
    → NotIn n cs
    → Distinct (p ∷ cs)
    → next n ≡ 0
    → Linked next prev p cs
    → Linked (update next (last_of p cs) n) (update prev n (last_of p cs)) p (cs ++ n ∷ [])
unfolding last_of
Linked-append next prev p n [] nz ne out d end l = (
  update_at next p n p refl,
  update_at prev n p n refl,
  nz,
  update_ne next p n n (λ e. ne (sym e)) ∙ end,
)
Linked-append next prev p n (a ∷ cs) nz ne (nea, out) ((pa, pas), d) end (e, b, az, l) = (
  update_ne next (last_of a cs) n p (λ x. last_of-ne p a cs pa pas (sym x)) ∙ e,
  update_ne prev n (last_of a cs) a nea ∙ b,
  az,
  Linked-append next prev a n cs nz nea out d end l,
)

NotIn-append : (q : ℕ) (xs ys : List ℕ) → NotIn q (xs ++ ys) → NotIn q xs × NotIn q ys
NotIn-append q [] ys h = (tt, h)
NotIn-append q (x ∷ xs) ys (ne, h) = let (hx, hy) = NotIn-append q xs ys h in ((ne, hx), hy)

-- What stands before a cell in its list, and what stands behind it.
pub Linked-middle :
    (next prev : ℕ → ℕ) (p z : ℕ) (xs ys : List ℕ)
    → Linked next prev p (xs ++ z ∷ ys)
    → (prev z ≡ last_of p xs) × Linked next prev z ys
unfolding last_of
Linked-middle next prev p z [] ys (e, b, nz, l) = (b, l)
Linked-middle next prev p z (x ∷ xs) ys (e, b, nz, l) = Linked-middle next prev x z xs ys l

-- Without the last cell: the one before it gets no next one.
pub Linked-cut :
    (next prev : ℕ → ℕ) (p z : ℕ) (xs : List ℕ)
    → Distinct (p ∷ (xs ++ z ∷ []))
    → Linked next prev p (xs ++ z ∷ [])
    → Linked (update next (last_of p xs) 0) prev p xs
unfolding last_of
Linked-cut next prev p z [] d l = update_at next p 0 p refl
Linked-cut next prev p z (x ∷ xs) ((px, pxs), d) (e, b, nz, l) = (
  update_ne next (last_of x xs) 0 p
        (λ h. last_of-ne p x xs px (NotIn-append p xs (z ∷ []) pxs).0 (sym h))
      ∙ e,
  b,
  nz,
  Linked-cut next prev x z xs d l,
)

Distinct-head :
    (x : ℕ) (xs : List ℕ) (z w : ℕ) (ys : List ℕ) → Distinct (x ∷ (xs ++ z ∷ w ∷ ys)) → x ≢ w
Distinct-head x xs z w ys (h, d) =
    let (before, (xz, (xw, xys))) = NotIn-append x xs (z ∷ w ∷ ys) h in xw

-- Without a cell before another one, `w`.
pub Linked-skip :
    (next prev : ℕ → ℕ) (p z w : ℕ) (xs ys : List ℕ)
    → Distinct (p ∷ (xs ++ z ∷ w ∷ ys))
    → Linked next prev p (xs ++ z ∷ w ∷ ys)
    → Linked (update next (last_of p xs) w) (update prev w (last_of p xs)) p (xs ++ w ∷ ys)
unfolding last_of
Linked-skip next prev p z w [] ys ((pz, (pw, pys)), ((zw, zys), (wys, d)))
      (e, b, nz, (e2, b2, nw, l)) =
    (
      update_at next p w p refl,
      update_at prev w p w refl,
      nw,
      Linked-update_prev (update next p w) prev w p w ys wys
          (Linked-update_next next prev p w w ys pw pys l),
    )
Linked-skip next prev p z w (x ∷ xs) ys ((px, pxs), d) (e, b, nz, l) =
    let (pbefore, (pz, (pw, pys))) = NotIn-append p xs (z ∷ w ∷ ys) pxs in
    let xw : w ≢ x = λ h. Distinct-head x xs z w ys d (sym h) in
    (
      update_ne next (last_of x xs) w p (λ h. last_of-ne p x xs px pbefore (sym h)) ∙ e,
      update_ne prev w (last_of x xs) x xw ∙ b,
      nz,
      Linked-skip next prev x z w xs ys d l,
    )
