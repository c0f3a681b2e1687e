-- ===== src/LinkedList/Refinement.antt =====
-- The operations of kernel/lib/llist.h as operations on the list of the values.
use sepples_os.Prelude.{
  ℕ, zero, suc, ◌<◌, ◌≡◌, ◌≢◌, refl, sym, ap, ap₂, ◌∙◌, List, [], ◌∷◌, ◌++◌, length, map, update,
  ==_of_ne, arith,
}
use sepples_os.LinkedList.{
  Cells, answer, ◌>>=◌, new_cell, count_from, last_from, link_behind, append,
}
use sepples_os.LinkedList.Links.{
  Linked, NotIn, Distinct, update_ne, update_at, Linked-update_next, Linked-update_prev, last_of,
  Linked-append,
}

abbrev pub AllBelow : ℕ → List ℕ → Type 0
AllBelow n [] = Unit
AllBelow n (c ∷ cs) = (c < n) × AllBelow n cs

-- The list at `this` holds `values`, in the cells `cells`, which are those that are taken.
pub record Represents (s : Cells) (this : ℕ) (cells values : List ℕ) : Type 0 where
  pub links : Linked s.next s.prev this cells
  pub apart : Distinct (this ∷ cells)
  pub taken : AllBelow s.fresh (this ∷ cells)
  pub head : this ≢ 0
  pub holds : map s.value cells ≡ values

pub NotIn-fresh : (n : ℕ) (cs : List ℕ) → AllBelow n cs → NotIn n cs
NotIn-fresh n [] h = tt
NotIn-fresh n (c ∷ cs) (lt, h) = ((λ e. omega (arith, lt, e)), NotIn-fresh n cs h)

pub AllBelow-suc : (n : ℕ) (cs : List ℕ) → AllBelow n cs → AllBelow (suc n) cs
AllBelow-suc n [] h = tt
AllBelow-suc n (c ∷ cs) (lt, h) = (omega arith, AllBelow-suc n cs h)

pub map-update : (f : ℕ → ℕ) (q v : ℕ) (cs : List ℕ) → NotIn q cs → map (update f q v) cs ≡ map f cs
map-update f q v [] out = refl
map-update f q v (c ∷ cs) (ne, out) =
    ap₂ (λ x l. x ∷ l) (update_ne f q v c ne) (map-update f q v cs out)

last_from-last_of :
    (s : Cells) (p : ℕ) (cs : List ℕ) (rounds : ℕ)
    → Linked s.next s.prev p cs
    → length cs < rounds
    → last_from rounds p s ≡ answer (last_of p cs)
unfolding last_from last_of
last_from-last_of s p cs zero l lt = absurd (omega arith)
last_from-last_of s p [] (suc rounds) l lt = rw l refl
last_from-last_of s p (c ∷ cs) (suc rounds) (e, b, nz, l) lt =
    rw (e, ==_of_ne c 0 nz) (last_from-last_of s c cs rounds l (omega arith))

pub count_from-length :
    (s : Cells) (p : ℕ) (cs : List ℕ) (rounds : ℕ)
    → Linked s.next s.prev p cs
    → length cs < rounds
    → count_from rounds p s ≡ answer (length cs)
unfolding count_from
count_from-length s p cs zero l lt = absurd (omega arith)
count_from-length s p [] (suc rounds) l lt = rw l refl
count_from-length s p (c ∷ cs) (suc rounds) (e, b, nz, l) lt =
    rw (e, ==_of_ne c 0 nz)
      (ap (λ o. o >>= λ n. answer (suc n)) (count_from-length s c cs rounds l (omega arith)))

NotIn-snoc : (q n : ℕ) (cs : List ℕ) → NotIn q cs → q ≢ n → NotIn q (cs ++ n ∷ [])
NotIn-snoc q n [] h ne = (ne, tt)
NotIn-snoc q n (c ∷ cs) (nec, h) ne = (nec, NotIn-snoc q n cs h ne)

Distinct-snoc : (n : ℕ) (cs : List ℕ) → NotIn n cs → Distinct cs → Distinct (cs ++ n ∷ [])
Distinct-snoc n [] out d = (tt, tt)
Distinct-snoc n (c ∷ cs) (ne, out) (cout, d) =
    (NotIn-snoc c n cs cout (λ e. ne (sym e)), Distinct-snoc n cs out d)

AllBelow-snoc : (n : ℕ) (cs : List ℕ) → AllBelow n cs → AllBelow (suc n) (cs ++ n ∷ [])
AllBelow-snoc n [] h = (omega arith, tt)
AllBelow-snoc n (c ∷ cs) (lt, h) = (omega arith, AllBelow-snoc n cs h)

map-snoc :
    (f : ℕ → ℕ) (n v : ℕ) (cs : List ℕ)
    → NotIn n cs
    → map (update f n v) (cs ++ n ∷ []) ≡ map f cs ++ v ∷ []
map-snoc f n v [] out = ap (λ x. x ∷ []) (update_at f n v n refl)
map-snoc f n v (c ∷ cs) (ne, out) =
    ap₂ (λ x l. x ∷ l) (update_ne f n v c ne) (map-snoc f n v cs out)

-- A new cell behind the last one.
pub link_behind-Represents :
    (s : Cells) (this : ℕ) (cells values : List ℕ) (udata : ℕ)
    → Represents s this cells values
    → 0 < s.fresh
    → Represents
        (link_behind (last_of this cells) udata s)
        this
        (cells ++ s.fresh ∷ [])
        (values ++ udata ∷ [])
unfolding link_behind new_cell
link_behind-Represents s this cells values udata r lt =
    let n = s.fresh in
    let free = NotIn-fresh n (this ∷ cells) r.taken in
    let forward = Linked-update_next s.next s.prev n 0 this cells free.0 free.1 r.links in
    let both = Linked-update_prev (update s.next n 0) s.prev n 0 this cells free.1 forward in
    record {
      links =
          Linked-append (update s.next n 0) (update s.prev n 0) this n cells
            (λ e. omega (arith, lt, e)) free.0 free.1 r.apart (update_at s.next n 0 n refl) both;
      apart = Distinct-snoc n (this ∷ cells) free r.apart;
      taken = AllBelow-snoc n (this ∷ cells) r.taken;
      head = r.head;
      holds = map-snoc s.value n udata cells free.1 ∙ ap (λ l. l ++ udata ∷ []) r.holds;
    }

-- `append` puts a value at the end of the list, in a new cell, with more rounds than there are cells.
pub append-Represents :
    (rounds this udata : ℕ) (s : Cells) (cells values : List ℕ)
    → Represents s this cells values
    → 0 < s.fresh
    → length cells < rounds
    → (s' : Cells) × (append rounds this udata s ≡ answer s')
      × Represents s' this (cells ++ s.fresh ∷ []) (values ++ udata ∷ [])
unfolding append last_of
append-Represents rounds this udata s [] values r lt enough =
    (link_behind this udata s, rw r.links refl, link_behind-Represents s this [] values udata r lt)
append-Represents rounds this udata s (c ∷ cs) values r lt enough =
    let (e, b, nz, l) = r.links in
    (
      link_behind (last_of c cs) udata s,
      rw (e, ==_of_ne c 0 nz)
          (ap (λ o. o >>= λ i. answer (link_behind i udata s))
            (last_from-last_of s c cs rounds l (omega arith))),
      link_behind-Represents s this (c ∷ cs) values udata r lt,
    )
