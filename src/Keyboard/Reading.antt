-- ===== src/Keyboard/Reading.antt =====
-- What `scan` and `nget` of kernel/keyboard.cpp read.
use sepples_os.Prelude.{
  refl, sym, ap, ℕ, suc, ◌+◌, ◌^◌, ◌≤◌, ◌<◌, ◌≡◌, true, false, List, [], ◌∷◌, ◌++◌, ◌==◌, length,
  Bool-cases, arith, inl, ==_of_ne, inr, ◌∙◌, subst, sym, lt→ltb,
}
use sepples_os.Keyboard.{
  Keyboard, Stop, off, line, left, store, receive, input, type, scan, nget, is_newline, unlock,
}
use sepples_os.Keyboard.Line.{
  key, edit, Holds, IsPlain, IsReading, store-IsStored, store-char, key_char,
}

-- A key that does not end the reading leaves it on.
IsReading-go_on :
    (s s' : Stop) (c : ℕ) (t : List ℕ) (k : Keyboard)
    → IsReading s t k
    → length t + 1 < 2 ^ 32
    → input c k ≡ record (store c k) { stop = s' }
    → IsReading s' (key c t) (input c k)
IsReading-go_on s s' c t k r lt e =
    let st = store-IsStored c t k r.pos r.holds lt in
    subst (IsReading s' (key c t)) (sym e) (record {
      locked = st.locked ∙ r.locked;
      has_buf = st.has_buf ∙ r.has_buf;
      stop = refl;
      pos = st.pos;
      holds = st.holds;
    })

input-receive :
    (s : Stop) (c : ℕ) (t : List ℕ) (k : Keyboard) → IsReading s t k → input c k ≡ receive s c k
unfolding input
input-receive s c t k r = rw (r.locked, r.has_buf, r.stop) refl

restop : (k : Keyboard) (s : Stop) → k.stop ≡ s → k ≡ record k { stop = s }
restop k s e = ap {B = Keyboard} (λ x. record k { stop = x }) e

input-line :
    (c : ℕ) (t : List ℕ) (k : Keyboard)
    → IsReading line t k
    → is_newline c ≡ false
    → length t + 1 < 2 ^ 32
    → IsReading line (key c t) (input c k)
unfolding receive
input-line c t k r nl lt =
    let st = store-IsStored c t k r.pos r.holds lt in
    let kept : receive line c k ≡ record (store c k) { stop = line } =
      rw nl (restop (store c k) line (st.stop ∙ r.stop)) in
    IsReading-go_on line line c t k r lt (input-receive line c t k r ∙ kept)

input-left :
    (n c : ℕ) (t : List ℕ) (k : Keyboard)
    → IsReading (left (suc (suc n))) t k
    → is_newline c ≡ false
    → length t + 1 < 2 ^ 32
    → IsReading (left (suc n)) (key c t) (input c k)
unfolding receive
input-left n c t k r nl lt =
    let go : receive (left (suc (suc n))) c k ≡ record (store c k) { stop = left (suc n) } =
      rw (nl, ==_of_ne (suc n) 0 (omega arith)) refl in
    IsReading-go_on (left (suc (suc n))) (left (suc n)) c t k r lt
      (input-receive (left (suc (suc n))) c t k r ∙ go)

-- A reading that has ended: the lock is free, and the buffer holds the text.
pub record IsRead (t : List ℕ) (k : Keyboard) : Type 0 where
  pub unlocked : k.ilock ≡ false
  pub no_buf : k.has_buf ≡ false
  pub stop : k.stop ≡ off
  pub holds : Holds k.buf t

ends :
    (s : Stop) (c : ℕ) (t : List ℕ) (k : Keyboard)
    → IsReading s t k
    → length t + 1 < 2 ^ 32
    → input c k ≡ unlock (store c k)
    → IsRead (key c t) (input c k)
ends s c t k r lt e =
    let st = store-IsStored c t k r.pos r.holds lt in
    subst (IsRead (key c t)) (sym e)
      (record { unlocked = refl; no_buf = refl; stop = refl; holds = st.holds })

length-key : (c : ℕ) (t : List ℕ) → length (key c t) ≤ length t + 1
unfolding key
length-key c [] = ground arith
length-key c (x ∷ t) = ground arith

line-run :
    (cs t : List ℕ) (k : Keyboard)
    → IsReading line t k
    → IsPlain cs
    → length t + length cs + 1 < 2 ^ 32
    → IsReading line (edit cs t) (type cs k) × (length (edit cs t) ≤ length t + length cs)
unfolding edit type
line-run [] t k r pl lt = (r, omega arith)
line-run (c ∷ cs) t k r (nl, pl) lt =
    let short = length-key c t in
    let (r', le) =
      line-run cs (key c t) (input c k) (input-line c t k r nl (omega (arith, lt))) pl
        (omega (arith, lt, short)) in
    (r', omega (arith, le, short))

type-append : (cs ds : List ℕ) (k : Keyboard) → type (cs ++ ds) k ≡ type ds (type cs k)
unfolding type
type-append [] ds k = refl
type-append (c ∷ cs) ds k = type-append cs ds (input c k)

newline_not_back : (c : ℕ) → is_newline c ≡ true → (c == 8) ≡ false
newline_not_back c e = ground (arith, e)

input-end :
    (c : ℕ) (t : List ℕ) (k : Keyboard)
    → IsReading line t k
    → is_newline c ≡ true
    → input c k ≡ unlock (store c k)
unfolding receive
input-end c t k r nl = input-receive line c t k r ∙ rw nl refl

input-last :
    (c : ℕ) (t : List ℕ) (k : Keyboard) → IsReading (left 1) t k → input c k ≡ unlock (store c k)
unfolding receive
input-last c t k r =
    input-receive (left 1) c t k r
    ∙ elim (Bool-cases (is_newline c)) [ inl e ↦ rw e refl | inr e ↦ rw e refl ]

-- For fewer than 2^32 - 1 keys without a newline or carriage return, and then one of these: `scan`
-- ends, the lock is free, and the buffer holds the text as the backspaces have left it, then the
-- newline and an end mark.
pub scan_lem :
    (cs : List ℕ) (c : ℕ) (buf : ℕ → ℕ) (k : Keyboard)
    → IsPlain cs
    → is_newline c ≡ true
    → length cs + 1 < 2 ^ 32
    → let k' = type (cs ++ c ∷ []) (scan buf k) in
      IsRead (c ∷ edit cs []) k' × (k'.buf (suc (length (edit cs []))) ≡ 0)
unfolding scan type
scan_lem cs c buf k pl nl lt =
    let k0 = scan buf k in
    let k1 = type cs k0 in
    let t = edit cs [] in
    let r0 : IsReading line [] k0 = record {
      locked = refl;
      has_buf = refl;
      stop = refl;
      pos = refl;
      holds = tt;
    } in
    let (r, le) = line-run cs [] k0 r0 pl (omega (arith, lt)) in
    let last = input-end c t k1 r nl in
    let nb = newline_not_back c nl in
    let read =
      subst (λ x. IsRead x (input c k1)) (key_char c t nb)
        (ends line c t k1 r (omega (arith, lt, le)) last) in
    let (st, mark) = store-char c t k1 r.pos r.holds (omega (arith, lt, le)) nb in
    let at : (store c k1).pos ≡ suc (length t) = st.pos ∙ ap (λ x. length x) (key_char c t nb) in
    subst (λ x. IsRead (c ∷ t) x × (x.buf (suc (length t)) ≡ 0)) (sym (type-append cs (c ∷ []) k0))
      (
        read,
        subst (λ x. x.buf (suc (length t)) ≡ 0) (sym last)
            (subst (λ x. (store c k1).buf x ≡ 0) at mark),
      )

left-run :
    (cs t : List ℕ) (n : ℕ) (k : Keyboard)
    → IsReading (left (length cs + suc n)) t k
    → IsPlain cs
    → length t + length cs + 1 < 2 ^ 32
    → IsReading (left (suc n)) (edit cs t) (type cs k) × (length (edit cs t) ≤ length t + length cs)
unfolding edit type
left-run [] t n k r pl lt = (subst (λ x. IsReading (left x) t k) (omega arith) r, omega arith)
left-run (c ∷ cs) t n k r (nl, pl) lt =
    let short = length-key c t in
    let r1 : IsReading (left (suc (suc (length cs + n)))) t k =
      subst (λ x. IsReading (left x) t k) (omega arith) r in
    let r2 =
      subst (λ x. IsReading (left x) (key c t) (input c k)) (omega arith)
        (input-left (length cs + n) c t k r1 nl (omega (arith, lt))) in
    let (r', le) = left-run cs (key c t) n (input c k) r2 pl (omega (arith, lt, short)) in
    (r', omega (arith, le, short))

-- For n below 2^31 and keys without a newline but perhaps the last: the n-th key ends `nget n`, a
-- backspace being a key. Before it the reading goes on, after it the lock is free, and the buffer
-- holds the text as the backspaces have left it.
pub nget_lem :
    (cs : List ℕ) (c : ℕ) (buf : ℕ → ℕ) (k : Keyboard)
    → IsPlain cs
    → length cs + 1 < 2 ^ 31
    → IsReading (left 1) (edit cs []) (type cs (nget buf (length cs + 1) k))
      × IsRead (key c (edit cs [])) (type (cs ++ c ∷ []) (nget buf (length cs + 1) k))
unfolding nget type
nget_lem cs c buf k pl lt =
    let k0 = nget buf (length cs + 1) k in
    let r0 : IsReading (left (length cs + 1)) [] k0 = record {
      locked = refl;
      has_buf = refl;
      stop = rw (lt→ltb (length cs + 1) (2 ^ 31) lt) refl;
      pos = refl;
      holds = tt;
    } in
    let (r, le) = left-run cs [] 0 k0 r0 pl (omega (arith, lt)) in
    let last =
      ends (left 1) c (edit cs []) (type cs k0) r (omega (arith, lt, le))
        (input-last c (edit cs []) (type cs k0) r) in
    (r, subst (IsRead (key c (edit cs []))) (sym (type-append cs (c ∷ []) k0)) last)
