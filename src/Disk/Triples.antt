-- ===== src/Disk/Triples.antt =====
-- What a run of the driver ends with: the rules by which its steps are put together.
use sepples_os.Prelude.{◌≡◌, refl, ◌∙◌, Bool, true, false, if◌then◌else◌, ap}
use sepples_os.Disk.{done, Io, and_then, ◌>>=◌, return}

module _ {S : Type 0} where
  -- `m` ends from `s`, with an answer and a state that meet `post`.
  pub record Gives {A : Type 0} (m : Io S A) (s : S) (Q : A → S → Type 0) : Type 0 where
    pub answer : A
    pub final : S
    pub run : m s ≡ done answer final
    pub post : Q answer final

  pub Gives-return :
      {A : Type 0} (a : A) (s : S) {Q : A → S → Type 0} → Q a s → Gives (return a) s Q
  Gives-return a s q = record { answer = a; final = s; run = refl; post = q }

  pub Gives-same :
      {A : Type 0} {m : Io S A} (n : Io S A) {s t : S} {Q : A → S → Type 0}
      → m s ≡ n t
      → Gives n t Q
      → Gives m s Q
  Gives-same n e g = record { answer = g.answer; final = g.final; run = e ∙ g.run; post = g.post }

  pub Gives-bind :
      {A B : Type 0} {m : Io S A} {f : A → Io S B} {s : S} {Q : A → S → Type 0} {R : B → S → Type 0}
      → Gives m s Q
      → ((a : A) (s' : S) → Q a s' → Gives (f a) s' R)
      → Gives (m >>= f) s R
  Gives-bind {f = f} g next =
      let h = next g.answer g.final g.post in
      record {
        answer = h.answer;
        final = h.final;
        run = ap (λ o. and_then o f) g.run ∙ h.run;
        post = h.post;
      }

  pub Gives-weaken :
      {A : Type 0} {m : Io S A} {s : S} {Q R : A → S → Type 0}
      → Gives m s Q
      → ((a : A) (s' : S) → Q a s' → R a s')
      → Gives m s R
  Gives-weaken g up = record {
    answer = g.answer;
    final = g.final;
    run = g.run;
    post = up g.answer g.final g.post;
  }

  pub Gives-if_true :
      {A : Type 0} {m : Io S A} (n : Io S A) {s : S} {Q : A → S → Type 0} (b : Bool)
      → b ≡ true
      → Gives m s Q
      → Gives (if b then m else n) s Q
  Gives-if_true n b e g = rw e g

  pub Gives-if_false :
      {A : Type 0} (m : Io S A) {n : Io S A} {s : S} {Q : A → S → Type 0} (b : Bool)
      → b ≡ false
      → Gives n s Q
      → Gives (if b then m else n) s Q
  Gives-if_false m b e g = rw e g
