-- ===== src/Disk/Sectors.antt =====
-- The sector that `readSector` of kernel/disk/disk.cpp reads from a device.
use sepples_os.Prelude.{
  ℕ, zero, suc, ◌+◌, ◌*◌, ◌/◌, ◌%◌, ◌^◌, ◌<◌, ◌≡◌, refl, sym, ap, ap₂, ◌∙◌, true, ◌==◌,
  if◌then◌else◌, List, [], ◌∷◌, ◌⊎◌, inl, inr, arith, ==_of_ne,
}
use sepples_os.Disk.{
  Ports, Config, Drive, read_port, read_word, wait400ns, wait_loop, wait_ready, timeout,
}
use sepples_os.Disk.Commands.{read_words}
use sepples_os.Disk.Waiting.{step, wait_loop_now, wait_loop_later}
use sepples_os.Disk.Device.{
  IsDevice, Phase, idle, seeking, transfer, next_poll, next_word, bytes_of,
}
use sepples_os.Disk.Triples.{Gives, Gives-return, Gives-bind, Gives-same}

module _ (P : Ports) (image : ℕ → ℕ → ℕ) (delay : ℕ) (D : IsDevice P image delay) where
  -- The phase of the device, and the two types that the driver has recorded.
  abbrev pub In : Phase → Config → Config → Drive P → Type 0
  In f c1 c2 d = ((D.regs d.bus).phase ≡ f) × (d.first ≡ c1) × (d.second ≡ c2)

  module _ (drive block : ℕ) (c1 c2 : Config) where
    -- Ready, or busy for fewer than `m` more polls.
    abbrev pub Pending : ℕ → Drive P → Type 0
    Pending m d =
        ((n : ℕ) × (n < m) × In (seeking n drive block) c1 c2 d)
        ⊎ In (transfer drive block 0) c1 c2 d

    step-In : (f : Phase) (d : Drive P) → In f c1 c2 d → In (next_poll f) c1 c2 (step P 0x3F6 d)
    step-In f d (e, e1, e2) =
        (ap (λ r. r.phase) (D.regs-poll 0x3F6 d.bus (inr refl)) ∙ ap next_poll e, e1, e2)

    step-Pending : (m : ℕ) (d : Drive P) → Pending (suc m) d → Pending m (step P 0x3F6 d)
    step-Pending m d (inl (zero, lt, i)) = inr (step-In _ d i)
    step-Pending m d (inl (suc n, lt, i)) = inl (n, omega arith, step-In _ d i)
    step-Pending m d (inr i) = inr (step-In _ d i)

    Pending-more : (m : ℕ) (d : Drive P) → Pending m d → Pending (suc m) d
    Pending-more m d (inl (n, lt, i)) = inl (n, omega arith, i)
    Pending-more m d (inr i) = inr i

    read_port-Pending :
        (m : ℕ) (d : Drive P) → Pending m d → Gives (read_port P 0x3F6) d (λ _. Pending m)
    unfolding read_port
    read_port-Pending m d p = record {
      answer = _;
      final = _;
      run = refl;
      post = step-Pending m d (Pending-more m d p);
    }

    pub wait400ns-Pending :
        (m : ℕ) (d : Drive P) → Pending m d → Gives (wait400ns P) d (λ _. Pending m)
    unfolding wait400ns
    wait400ns-Pending m d p = Gives-bind (read_port-Pending m d p) (λ _ d1 p1.
        Gives-bind (read_port-Pending m d1 p1) (λ _ d2 p2.
          Gives-bind (read_port-Pending m d2 p2)
            (λ _ d3 p3. Gives-bind (read_port-Pending m d3 p3) (λ _ d4 p4. Gives-return tt d4 p4))))

    wait_now :
        (rounds : ℕ) (d : Drive P)
        → In (transfer drive block 0) c1 c2 d
        → Gives
            (wait_loop P 0x3F6 0x80 rounds)
            d
            (λ b d'. (b ≡ true) × In (transfer drive block 0) c1 c2 d')
    wait_now rounds d i = record {
      answer = true;
      final = step P 0x3F6 d;
      run = wait_loop_now P 0x3F6 0x80 rounds d (D.ready_status drive block 0 d.bus i.0);
      post = (refl, step-In _ d i);
    }

    -- A wait of as many rounds as the device is busy ends with a sector to read.
    wait_loop-Pending :
        (rounds : ℕ) (d : Drive P)
        → Pending rounds d
        → Gives
            (wait_loop P 0x3F6 0x80 rounds)
            d
            (λ b d'. (b ≡ true) × In (transfer drive block 0) c1 c2 d')
    wait_loop-Pending rounds d (inr i) = wait_now rounds d i
    wait_loop-Pending zero d (inl (n, lt, i)) = absurd (omega arith)
    wait_loop-Pending (suc rounds) d (inl (n, lt, i)) =
        Gives-same (wait_loop P 0x3F6 0x80 rounds)
          (wait_loop_later P 0x3F6 0x80 rounds d (D.busy_status n drive block d.bus i.0))
          (wait_loop-Pending rounds (step P 0x3F6 d) (step-Pending rounds d (inl (n, lt, i))))

    pub wait_ready_lem :
        (d : Drive P)
        → Pending timeout d
        → Gives (wait_ready P) d (λ b d'. (b ≡ true) × In (transfer drive block 0) c1 c2 d')
    unfolding wait_ready
    wait_ready_lem d p = wait_loop-Pending timeout d p

    -- The phase when `word` words of the sector are read.
    pub reached : ℕ → Phase
    reached word = if word == 256 then idle else transfer drive block word

    pub reached_open : (word : ℕ) → word < 256 → reached word ≡ transfer drive block word
    unfolding reached
    reached_open word lt = rw (==_of_ne word 256 (omega arith)) refl

    pub reached_end : (word : ℕ) → word ≡ 256 → reached word ≡ idle
    unfolding reached
    reached_end word e = rw e refl

    next-reached : (word : ℕ) → word < 256 → next_word (reached word) ≡ reached (suc word)
    unfolding reached
    next-reached word lt = ground (arith, lt)

    read_word_lem :
        (word : ℕ) (d : Drive P)
        → word < 256
        → In (reached word) c1 c2 d
        → Gives (read_word P 0x1F0) d (λ w d'.
          (w
            ≡ image drive (512 * block + 2 * word)
              + 2 ^ 8 * image drive (512 * block + 2 * word + 1))
          × In (reached (suc word)) c1 c2 d')
    unfolding read_word
    read_word_lem word d lt (e, e1, e2) =
        let words_left = e ∙ reached_open word lt in
        record {
          answer = _;
          final = _;
          run = refl;
          post = (
            D.word_value drive block word d.bus words_left,
            (D.regs-word d.bus ∙ (ap next_word e ∙ next-reached word lt), e1, e2),
          );
        }

    low_byte : (a b : ℕ) → a < 2 ^ 8 → (a + 2 ^ 8 * b) % 256 ≡ a
    low_byte a b h = omega arith

    high_byte : (a b : ℕ) → a < 2 ^ 8 → b < 2 ^ 8 → (a + 2 ^ 8 * b) / 2 ^ 8 % 256 ≡ b
    high_byte a b h k = omega arith

    bytes_of-two :
        (f : ℕ → ℕ) (a k : ℕ)
        → bytes_of f a (2 * suc k) ≡ f a ∷ f (a + 1) ∷ bytes_of f (a + 2) (2 * k)
    bytes_of-two f a k =
        let two : 2 * suc k ≡ suc (suc (2 * k)) = omega arith in
        let one : suc a ≡ a + 1 = omega arith in
        let both : suc (suc a) ≡ a + 2 = omega arith in
        ap (bytes_of f a) two ∙ ap₂ (λ x y. f a ∷ f x ∷ bytes_of f y (2 * k)) one both

    two_bytes :
        (f : ℕ → ℕ) (a b k w : ℕ) (bytes : List ℕ)
        → ((x : ℕ) → f x < 2 ^ 8)
        → w ≡ f a + 2 ^ 8 * f (a + 1)
        → b ≡ a + 2
        → bytes ≡ bytes_of f b (2 * k)
        → w % 256 ∷ w / 2 ^ 8 % 256 ∷ bytes ≡ bytes_of f a (2 * suc k)
    two_bytes f a b k w bytes small ew eb e =
        let low = ap (λ x. x % 256) ew ∙ low_byte (f a) (f (a + 1)) (small a) in
        let high =
          ap (λ x. x / 2 ^ 8 % 256) ew ∙ high_byte (f a) (f (a + 1)) (small a) (small (a + 1)) in
        let rest = e ∙ ap (λ x. bytes_of f x (2 * k)) eb in
        rw (low, high, rest) (sym (bytes_of-two f a k))

    pub read_words_lem :
        (words word : ℕ) (d : Drive P)
        → word + words ≡ 256
        → In (reached word) c1 c2 d
        → Gives (read_words P words) d (λ bytes d'.
          (bytes ≡ bytes_of (image drive) (512 * block + 2 * word) (2 * words)) × In idle c1 c2 d')
    unfolding read_words
    read_words_lem zero word d total i =
        Gives-return [] d (refl, (i.0 ∙ reached_end word (omega arith), i.1, i.2))
    read_words_lem (suc words) word d total i =
        Gives-bind (read_word_lem word d (omega arith) i) (λ w d1 (ew, i1).
          Gives-bind (read_words_lem words (suc word) d1 (omega arith) i1) (λ bytes d2 (eb, i2).
            Gives-return _ d2
              (two_bytes _ _ _ words w bytes (D.image_byte drive) ew (omega arith) eb, i2)))
