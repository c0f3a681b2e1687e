-- ===== src/LinkedList/Splicing.antt =====
-- What a list of kernel/lib/llist.h is when the links lead through a new cell.
use sepples_os.Prelude.{
  ℕ, suc, ◌≡◌, ◌≢◌, refl, sym, ap, ap₂, ◌∙◌, List, [], ◌∷◌, ◌++◌, length, map, update, arith, drop,
  take,
}
use sepples_os.LinkedList.{Cells}
use sepples_os.LinkedList.Links.{Linked, NotIn, Distinct, update_ne, update_at, last_of}
use sepples_os.LinkedList.Refinement.{AllBelow, Represents, NotIn-fresh, AllBelow-suc, map-update}

-- The links of a list with the cell `n` between `q` and `w`, against those of the list without it.
pub record Spliced (next prev next' prev' : ℕ → ℕ) (q n w : ℕ) : Type 0 where
  pub enters : next' q ≡ n
  leaves : next' n ≡ w
  back : prev' n ≡ q
  back_to : prev' w ≡ n
  other_next : (a : ℕ) → q ≢ a → n ≢ a → next' a ≡ next a
  other_prev : (a : ℕ) → n ≢ a → w ≢ a → prev' a ≡ prev a

Linked-agree :
    (next prev next' prev' : ℕ → ℕ) (q n w p : ℕ) (cs : List ℕ)
    → Spliced next prev next' prev' q n w
    → NotIn q (p ∷ cs)
    → NotIn n (p ∷ cs)
    → NotIn w cs
    → Linked next prev p cs
    → Linked next' prev' p cs
Linked-agree next prev next' prev' q n w p [] sp (qp, qs) (np, ns) ws l = sp.other_next p qp np ∙ l
Linked-agree next prev next' prev' q n w p (c ∷ cs) sp (qp, qs) (np, (nc, ns)) (wc, ws)
      (e, b, nz, l) =
    (
      sp.other_next p qp np ∙ e,
      sp.other_prev c nc wc ∙ b,
      nz,
      Linked-agree next prev next' prev' q n w c cs sp qs (nc, ns) ws l,
    )

pub last_of-apart : (p q : ℕ) (cs ys : List ℕ) → q ≢ p → NotIn q (cs ++ ys) → q ≢ last_of p cs
unfolding last_of
last_of-apart p q [] ys ne out = ne
last_of-apart p q (c ∷ cs) ys ne (nec, out) = last_of-apart c q cs ys nec out

pub NotIn-middle : (q w : ℕ) (xs ys : List ℕ) → NotIn q (xs ++ w ∷ ys) → q ≢ w
NotIn-middle q w [] ys (ne, h) = ne
NotIn-middle q w (x ∷ xs) ys (ne, h) = NotIn-middle q w xs ys h

pub Linked-splice :
    (next prev next' prev' : ℕ → ℕ) (n w p : ℕ) (xs ys : List ℕ)
    → Spliced next prev next' prev' (last_of p xs) n w
    → n ≢ 0
    → NotIn n (p ∷ (xs ++ w ∷ ys))
    → Distinct (p ∷ (xs ++ w ∷ ys))
    → Linked next prev p (xs ++ w ∷ ys)
    → Linked next' prev' p (xs ++ n ∷ w ∷ ys)
unfolding last_of
Linked-splice next prev next' prev' n w p [] ys sp nz (np, ns) (pd, (wd, d)) (e, b, wz, l) = (
  sp.enters,
  sp.back,
  nz,
  (sp.leaves, sp.back_to, wz, Linked-agree next prev next' prev' p n w w ys sp pd ns wd l),
)
Linked-splice next prev next' prev' n w p (x ∷ xs) ys sp nz (np, (nx, ns)) ((px, pd), (xd, d))
      (e, b, xz, l) =
    (
      sp.other_next p (λ h. last_of-apart x p xs (w ∷ ys) px pd (sym h)) np ∙ e,
      sp.other_prev x nx (λ h. NotIn-middle x w xs ys xd (sym h)) ∙ b,
      xz,
      Linked-splice next prev next' prev' n w x xs ys sp nz (nx, ns) (xd, d) l,
    )

NotIn-between : (q n : ℕ) (xs ys : List ℕ) → q ≢ n → NotIn q (xs ++ ys) → NotIn q (xs ++ n ∷ ys)
NotIn-between q n [] ys ne h = (ne, h)
NotIn-between q n (x ∷ xs) ys ne (nx, h) = (nx, NotIn-between q n xs ys ne h)

Distinct-between :
    (n : ℕ) (xs ys : List ℕ) → NotIn n (xs ++ ys) → Distinct (xs ++ ys) → Distinct (xs ++ n ∷ ys)
Distinct-between n [] ys out d = (out, d)
Distinct-between n (x ∷ xs) ys (nx, out) (xd, d) =
    (NotIn-between x n xs ys (λ e. nx (sym e)) xd, Distinct-between n xs ys out d)

AllBelow-between :
    (n : ℕ) (xs ys : List ℕ) → AllBelow n (xs ++ ys) → AllBelow (suc n) (xs ++ n ∷ ys)
AllBelow-between n [] ys h = (omega arith, AllBelow-suc n ys h)
AllBelow-between n (x ∷ xs) ys (lt, h) = (omega arith, AllBelow-between n xs ys h)

map-between :
    (f : ℕ → ℕ) (n v : ℕ) (xs ys : List ℕ)
    → NotIn n (xs ++ ys)
    → map (update f n v) (xs ++ n ∷ ys)
      ≡ take (length xs) (map f (xs ++ ys)) ++ v ∷ drop (length xs) (map f (xs ++ ys))
map-between f n v [] ys out = ap₂ (λ x l. x ∷ l) (update_at f n v n refl) (map-update f n v ys out)
map-between f n v (x ∷ xs) ys (nx, out) =
    ap₂ (λ y l. y ∷ l) (update_ne f n v x nx) (map-between f n v xs ys out)

-- A list whose links have the new cell in them.
pub made-Represents :
    (s : Cells) (next prev : ℕ → ℕ) (this udata : ℕ) (xs ys values : List ℕ)
    → Represents s this (xs ++ ys) values
    → Linked next prev this (xs ++ s.fresh ∷ ys)
    → Represents
        (record {
          next = next;
          prev = prev;
          value = update s.value s.fresh udata;
          fresh = suc s.fresh;
        })
        this
        (xs ++ s.fresh ∷ ys)
        (take (length xs) values ++ udata ∷ drop (length xs) values)
made-Represents s next prev this udata xs ys values r l =
    let out = NotIn-fresh s.fresh (this ∷ (xs ++ ys)) r.taken in
    record {
      links = l;
      apart = Distinct-between s.fresh (this ∷ xs) ys out r.apart;
      taken = AllBelow-between s.fresh (this ∷ xs) ys r.taken;
      head = r.head;
      holds =
          map-between s.value s.fresh udata xs ys out.1
          ∙ ap (λ l. take (length xs) l ++ udata ∷ drop (length xs) l) r.holds;
    }

-- The links that `link_before` leaves.
pub link_before-Spliced :
    (next prev : ℕ → ℕ) (q n w : ℕ)
    → n ≢ q
    → n ≢ w
    → Spliced next prev
        (update (update (update next n 0) q n) n w)
        (update (update (update prev n 0) n q) w n)
        q
        n
        w
link_before-Spliced next prev q n w nq nw = record {
  enters =
      update_ne (update (update next n 0) q n) n w q nq ∙ update_at (update next n 0) q n q refl;
  leaves = update_at (update (update next n 0) q n) n w n refl;
  back =
      update_ne (update (update prev n 0) n q) w n n (λ e. nw (sym e))
      ∙ update_at (update prev n 0) n q n refl;
  back_to = update_at (update (update prev n 0) n q) w n w refl;
  other_next = λ a qa na.
      update_ne (update (update next n 0) q n) n w a na
      ∙ (update_ne (update next n 0) q n a qa ∙ update_ne next n 0 a na);
  other_prev = λ a na wa.
      update_ne (update (update prev n 0) n q) w n a wa
      ∙ (update_ne (update prev n 0) n q a na ∙ update_ne prev n 0 a na);
}

-- The links that `prepend` leaves.
pub prepend-Spliced :
    (next prev : ℕ → ℕ) (q n w : ℕ)
    → n ≢ q
    → n ≢ w
    → Spliced next prev
        (update (update (update next n 0) n w) q n)
        (update (update (update prev n 0) n q) w n)
        q
        n
        w
prepend-Spliced next prev q n w nq nw = record {
  enters = update_at (update (update next n 0) n w) q n q refl;
  leaves =
      update_ne (update (update next n 0) n w) q n n (λ e. nq (sym e))
      ∙ update_at (update next n 0) n w n refl;
  back =
      update_ne (update (update prev n 0) n q) w n n (λ e. nw (sym e))
      ∙ update_at (update prev n 0) n q n refl;
  back_to = update_at (update (update prev n 0) n q) w n w refl;
  other_next = λ a qa na.
      update_ne (update (update next n 0) n w) q n a qa
      ∙ (update_ne (update next n 0) n w a na ∙ update_ne next n 0 a na);
  other_prev = λ a na wa.
      update_ne (update (update prev n 0) n q) w n a wa
      ∙ (update_ne (update prev n 0) n q a na ∙ update_ne prev n 0 a na);
}
