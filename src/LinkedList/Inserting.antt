-- ===== src/LinkedList/Inserting.antt =====
-- insert and prepend of kernel/lib/llist.h as insertions into the list of the values.
use sepples_os.Prelude.{
  ℕ, suc, ◌<◌, ◌≡◌, ◌≢◌, refl, sym, ap, ◌∙◌, subst, ◌==◌, if◌then◌else◌, Bool, true, false, List,
  [], ◌∷◌, ◌++◌, length, update, ==_of_ne, arith, drop, take,
}
use mathlib.Core.List.{append-nil}
use sepples_os.LinkedList.{
  Cells, Answer, answer, ◌>>=◌, new_cell, prepend, link_behind, link_before, place_from, insert,
  set_next, set_prev, set_value,
}
use sepples_os.LinkedList.Links.{Linked, update_ne, update_at, last_of, Linked-middle}
use sepples_os.LinkedList.Refinement.{Represents, NotIn-fresh, link_behind-Represents}
use sepples_os.LinkedList.Splicing.{
  NotIn-middle, last_of-apart, Linked-splice, made-Represents, link_before-Spliced, prepend-Spliced,
}

place_from-before :
    (s : Cells) (p w : ℕ) (xs ys : List ℕ)
    → Linked s.next s.prev p (xs ++ w ∷ ys)
    → place_from (suc (length xs)) p s ≡ answer (w, false)
unfolding place_from
place_from-before s p w [] ys (e, b, nz, l) = rw (e, ==_of_ne w 0 nz) refl
place_from-before s p w (x ∷ xs) ys (e, b, nz, l) =
    rw (e, ==_of_ne x 0 nz) (place_from-before s x w xs ys l)

place_from-behind :
    (s : Cells) (p : ℕ) (xs : List ℕ)
    → Linked s.next s.prev p xs
    → place_from (suc (length xs)) p s ≡ answer (last_of p xs, true)
unfolding place_from last_of
place_from-behind s p [] l = rw l refl
place_from-behind s p (x ∷ xs) (e, b, nz, l) = rw (e, ==_of_ne x 0 nz) (place_from-behind s x xs l)

-- The cells with the new one, with empty links, and the links that are to be set.
abbrev with_cell : Cells → (ℕ → ℕ) → (ℕ → ℕ) → ℕ → Cells
with_cell s next prev udata = record {
  next = next;
  prev = prev;
  value = update s.value s.fresh udata;
  fresh = suc s.fresh;
}

link_before-made :
    (s : Cells) (q w udata : ℕ)
    → s.fresh ≢ w
    → s.prev w ≡ q
    → link_before w udata s
      ≡ with_cell s
          (update (update (update s.next s.fresh 0) q s.fresh) s.fresh w)
          (update (update (update s.prev s.fresh 0) s.fresh q) w s.fresh)
          udata
unfolding link_before new_cell
link_before-made s q w udata nw e =
    ap
      (λ m.
        with_cell s (update (update (update s.next s.fresh 0) m s.fresh) s.fresh w)
          (update (update (update s.prev s.fresh 0) s.fresh m) w s.fresh) udata)
      (update_ne s.prev s.fresh 0 w nw ∙ e)

-- What `prepend` makes when the first cell is `w`, or 0.
abbrev prepended : Cells → ℕ → ℕ → ℕ → Bool → Cells
prepended s this udata w none_there =
    let linked = set_next s.fresh w (set_prev s.fresh this (new_cell s)) in
    set_value s.fresh udata
      (set_next this s.fresh (if none_there then linked else set_prev w s.fresh linked))

prepend-made :
    (s : Cells) (this udata w : ℕ) (none_there : Bool)
    → s.next this ≡ w
    → (w == 0) ≡ none_there
    → prepend this udata s ≡ prepended s this udata w none_there
unfolding prepend
prepend-made s this udata w none_there e b =
    ap (λ x. prepended s this udata x (x == 0)) e ∙ ap (prepended s this udata w) b

prepend-Represents :
    (s : Cells) (this udata : ℕ) (cells values : List ℕ)
    → Represents s this cells values
    → 0 < s.fresh
    → Represents (prepend this udata s) this (s.fresh ∷ cells) (udata ∷ values)
unfolding new_cell last_of
prepend-Represents s this udata [] values r lt =
    let n = s.fresh in
    let out = NotIn-fresh n (this ∷ []) r.taken in
    subst (λ t. Represents t this (n ∷ []) (udata ∷ values))
      (sym (prepend-made s this udata 0 true r.links refl))
      (made-Represents s (update (update (update s.next n 0) n 0) this n)
        (update (update s.prev n 0) n this) this udata [] [] values r
        (
          update_at (update (update s.next n 0) n 0) this n this refl,
          update_at (update s.prev n 0) n this n refl,
          (λ e. omega (arith, lt, e)),
          update_ne (update (update s.next n 0) n 0) this n n (λ e. out.0 (sym e))
              ∙ update_at (update s.next n 0) n 0 n refl,
        ))
prepend-Represents s this udata (w ∷ ys) values r lt =
    let n = s.fresh in
    let (nt, (nw, ns)) = NotIn-fresh n (this ∷ (w ∷ ys)) r.taken in
    let (e, b, wz, l) = r.links in
    subst (λ t. Represents t this (n ∷ w ∷ ys) (udata ∷ values))
      (sym (prepend-made s this udata w false e (==_of_ne w 0 wz)))
      (made-Represents s (update (update (update s.next n 0) n w) this n)
        (update (update (update s.prev n 0) n this) w n) this udata [] (w ∷ ys) values r
        (Linked-splice s.next s.prev (update (update (update s.next n 0) n w) this n)
          (update (update (update s.prev n 0) n this) w n) n w this [] ys
          (prepend-Spliced s.next s.prev this n w nt nw) (λ h. omega (arith, lt, h)) (nt, (nw, ns))
          r.apart r.links))

link_before-Represents :
    (s : Cells) (this w udata : ℕ) (xs ys values : List ℕ)
    → Represents s this (xs ++ w ∷ ys) values
    → 0 < s.fresh
    → Represents
        (link_before w udata s)
        this
        (xs ++ s.fresh ∷ w ∷ ys)
        (take (length xs) values ++ udata ∷ drop (length xs) values)
link_before-Represents s this w udata xs ys values r lt =
    let n = s.fresh in
    let q = last_of this xs in
    let out = NotIn-fresh n (this ∷ (xs ++ w ∷ ys)) r.taken in
    let nw = NotIn-middle n w xs ys out.1 in
    let before = (Linked-middle s.next s.prev this w xs ys r.links).0 in
    let next = update (update (update s.next n 0) q n) n w in
    let prev = update (update (update s.prev n 0) n q) w n in
    subst
      (λ t.
        Represents t this (xs ++ n ∷ w ∷ ys)
          (take (length xs) values ++ udata ∷ drop (length xs) values))
      (sym (link_before-made s q w udata nw before))
      (made-Represents s next prev this udata xs (w ∷ ys) values r (
        Linked-splice s.next s.prev next prev n w this xs ys
          (link_before-Spliced s.next s.prev q n w (last_of-apart this n xs (w ∷ ys) out.0 out.1)
            nw)
          (λ h. omega (arith, lt, h)) out r.apart r.links))

-- The search from the cell `first` on, and the new cell at its place.
abbrev placed : Cells → ℕ → ℕ → ℕ → Answer Cells
placed s pos udata first = place_from pos first s >>= λ (i, behind).
    answer (if behind then link_behind i udata s else link_before i udata s)

insert-placed :
    (s : Cells) (this pos udata first : ℕ)
    → s.next this ≡ first
    → first ≢ 0
    → insert this (suc pos) udata s ≡ placed s (suc pos) udata first
unfolding insert
insert-placed s this pos udata first e nz =
    ap
      (λ t.
        if t
        then answer (prepend this udata s)
        else (if s.next this == 0 then answer s else placed s (suc pos) udata (s.next this)))
      (==_of_ne (suc pos) 0 (λ h. omega (arith, h)))
    ∙ (ap (λ f. if f == 0 then answer s else placed s (suc pos) udata f) e
        ∙ ap (λ t. if t then answer s else placed s (suc pos) udata first) (==_of_ne first 0 nz))

insert-front : (s : Cells) (this udata : ℕ) → insert this 0 udata s ≡ answer (prepend this udata s)
unfolding insert
insert-front s this udata = refl

link_behind-placed :
    (s : Cells) (this udata : ℕ) (xs values : List ℕ)
    → Represents s this (xs ++ []) values
    → 0 < s.fresh
    → Represents
        (link_behind (last_of this xs) udata s)
        this
        (xs ++ s.fresh ∷ [])
        (take (length xs) values ++ udata ∷ drop (length xs) values)
unfolding link_behind new_cell
link_behind-placed s this udata xs values r lt =
    let n = s.fresh in
    let whole = subst (λ cs. Represents s this cs values) (append-nil xs) r in
    made-Represents s (update (update s.next n 0) (last_of this xs) n)
      (update (update s.prev n 0) n (last_of this xs)) this udata xs [] values r
      (link_behind-Represents s this xs values udata whole lt).links

-- `insert` puts a value in the list at an index up to its length, in a new cell: the values before the
-- index stay before it, and the others come behind it.
pub insert-Represents :
    (s : Cells) (this udata : ℕ) (xs ys values : List ℕ)
    → Represents s this (xs ++ ys) values
    → 0 < s.fresh
    → (s' : Cells) × (insert this (length xs) udata s ≡ answer s')
      × Represents s' this
          (xs ++ s.fresh ∷ ys)
          (take (length xs) values ++ udata ∷ drop (length xs) values)
unfolding last_of
insert-Represents s this udata [] ys values r lt = (
  prepend this udata s,
  insert-front s this udata,
  prepend-Represents s this udata ys values r lt,
)
insert-Represents s this udata (x ∷ xs) [] values r lt =
    let (e, b, nz, l) = r.links in
    (
      link_behind (last_of x xs) udata s,
      insert-placed s this (length xs) udata x e nz
          ∙ ap
              (λ o. o >>= λ (i, behind).
                answer (if behind then link_behind i udata s else link_before i udata s))
              (place_from-behind s x xs
                (subst (λ cs. Linked s.next s.prev x cs) (append-nil xs) l)),
      link_behind-placed s this udata (x ∷ xs) values r lt,
    )
insert-Represents s this udata (x ∷ xs) (w ∷ ys) values r lt =
    let (e, b, nz, l) = r.links in
    (
      link_before w udata s,
      insert-placed s this (length xs) udata x e nz
          ∙ ap
              (λ o. o >>= λ (i, behind).
                answer (if behind then link_behind i udata s else link_before i udata s))
              (place_from-before s x w xs ys l),
      link_before-Represents s this w udata (x ∷ xs) ys values r lt,
    )
