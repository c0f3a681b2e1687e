-- ===== src/Keyboard/Line.antt =====
-- The text that an editor with a backspace keeps, and how `input` of kernel/keyboard.cpp stores it.
use sepples_os.Prelude.{
  refl, sym, ℕ, suc, ◌+◌, ◌-◌, ◌^◌, ◌≤◌, ◌<◌, ◌≡◌, true, false, List, [], ◌∷◌, ◌==◌, if◌then◌else◌,
  length, update, Bool-cases, arith, inl, ==_of_ne, inr, ◌%◌, subst, sym, ==_refl,
}
use sepples_os.Keyboard.{Keyboard, Stop, store, is_newline}

-- The last character is the head.
abbrev pub erase : List ℕ → List ℕ
erase [] = []
erase (x ∷ t) = t

unfoldable pub key : ℕ → List ℕ → List ℕ
key c t = if c == 8 then erase t else c ∷ t

unfoldable pub edit : List ℕ → List ℕ → List ℕ
unfolding key
edit [] t = t
edit (c ∷ cs) t = edit cs (key c t)

abbrev pub Holds : (ℕ → ℕ) → List ℕ → Type 0
Holds buf [] = Unit
Holds buf (c ∷ t) = (buf (length t) ≡ c) × Holds buf t

abbrev pub IsPlain : List ℕ → Type 0
IsPlain [] = Unit
IsPlain (c ∷ cs) = (is_newline c ≡ false) × IsPlain cs

pub record IsReading (s : Stop) (t : List ℕ) (k : Keyboard) : Type 0 where
  pub locked : k.ilock ≡ true
  pub has_buf : k.has_buf ≡ true
  pub stop : k.stop ≡ s
  pub pos : k.pos ≡ length t
  pub holds : Holds k.buf t

-- A write behind the text does not touch it.
Holds-update :
    (buf : ℕ → ℕ) (t : List ℕ) (p v : ℕ) → Holds buf t → length t ≤ p → Holds (update buf p v) t
Holds-update buf [] p v h le = tt
Holds-update buf (c ∷ t) p v (e, h) le = (
  ground (arith, e, ==_of_ne p (length t) (omega (arith, le))),
  Holds-update buf t p v h (omega (arith, le)),
)

pub record IsStored (c : ℕ) (t : List ℕ) (k k' : Keyboard) : Type 0 where
  pub locked : k'.ilock ≡ k.ilock
  pub has_buf : k'.has_buf ≡ k.has_buf
  pub stop : k'.stop ≡ k.stop
  pub pos : k'.pos ≡ length (key c t)
  pub holds : Holds k'.buf (key c t)

pub key_back : (c : ℕ) (t : List ℕ) → (c == 8) ≡ true → key c t ≡ erase t
unfolding key
key_back c t e = rw e refl

pub key_char : (c : ℕ) (t : List ℕ) → (c == 8) ≡ false → key c t ≡ c ∷ t
unfolding key
key_char c t e = rw e refl

store-back :
    (c : ℕ) (t : List ℕ) (k : Keyboard)
    → k.pos ≡ length t
    → Holds k.buf t
    → (c == 8) ≡ true
    → IsStored c t k (store c k)
unfolding store
store-back c [] k p h e =
    let st : store c k ≡ record k { buf = update k.buf 0 0 } = rw (e, p) refl in
    subst (IsStored c [] k) (sym st) (record {
      locked = refl;
      has_buf = refl;
      stop = refl;
      pos = rw (key_back c [] e) p;
      holds = rw (key_back c [] e) tt;
    })
store-back c (x ∷ t) k p (_, h) e =
    let some_left : (k.pos == 0) ≡ false = ==_of_ne k.pos 0 (omega (arith, p)) in
    let st : store c k ≡ record k { pos = k.pos - 1 } = rw (e, some_left) refl in
    subst (IsStored c (x ∷ t) k) (sym st) (record {
      locked = refl;
      has_buf = refl;
      stop = refl;
      pos = rw (key_back c (x ∷ t) e) (omega (arith, p));
      holds = rw (key_back c (x ∷ t) e) h;
    })

pub store-char :
    (c : ℕ) (t : List ℕ) (k : Keyboard)
    → k.pos ≡ length t
    → Holds k.buf t
    → length t + 1 < 2 ^ 32
    → (c == 8) ≡ false
    → IsStored c t k (store c k) × ((store c k).buf (store c k).pos ≡ 0)
unfolding store
store-char c t k p h lt e =
    let next = (k.pos + 1) % 2 ^ 32 in
    let buf = update (update k.buf k.pos c) next 0 in
    let at : next ≡ suc (length t) = omega (arith, p, lt) in
    let here : buf (length t) ≡ c = ground (arith, at, p) in
    let below =
      Holds-update (update k.buf k.pos c) t next 0
        (Holds-update k.buf t k.pos c h (omega (arith, p))) (omega (arith, at)) in
    let st : store c k ≡ record k { buf = buf; pos = next } = rw e refl in
    subst (λ x. IsStored c t k x × (x.buf x.pos ≡ 0)) (sym st)
      (
        record {
          locked = refl;
          has_buf = refl;
          stop = refl;
          pos = rw (key_char c t e) at;
          holds = rw (key_char c t e) (here, below);
        },
        rw (==_refl next) refl,
      )

pub store-IsStored :
    (c : ℕ) (t : List ℕ) (k : Keyboard)
    → k.pos ≡ length t
    → Holds k.buf t
    → length t + 1 < 2 ^ 32
    → IsStored c t k (store c k)
store-IsStored c t k p h lt = elim (Bool-cases (c == 8)) [
  | inl e ↦ store-back c t k p h e
  | inr e ↦ (store-char c t k p h lt e).0
]
