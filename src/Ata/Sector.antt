-- ===== src/Ata/Sector.antt =====
-- One sector of a READ SECTORS command, and the way to it, in src/drivers/disk/ata.c.
use dvivon_os.Ata.Runs.{run-cons, run-one}
use dvivon_os.Base.{
  if-false, if-true, ◌-◌, ltb, sym, ◌&&◌, ap, leb, if◌then◌else◌, zero, ◌+◌, ◌∙◌, ◌==◌, true,
  ==_iff, subst, arith, bit_or, some, ◌/◌, ◌%◌, false, refl, ◌^◌, suc, ◌<◌, ◌≤◌, ℕ, ◌≡◌, ◌⊎◌, inl,
  inr, Bool,
}
use dvivon_os.Base.Buf.{update}
use dvivon_os.Ata.{
  inw, primary, read_words, wait_irq, err_none, quiet, prepare_irq, Ata, handle, inb, outb,
  setup_lba, select_drive, settle, start_read, wait_ready_for, Bus,
}
use dvivon_os.Base.Search.{all_below-holds, all_below}
use dvivon_os.Ata.Disk.{sending, address, busy, raised, idle, Phase, Registers, IsDisk, Image}

module _ {S : Type 0} (b : Bus S) (image : Image) (d : IsDisk b image) where
  abbrev pub In : Phase → Ata S → Type 0
  In p a = d.At p a.bus

  settle-quiet :
      (p : Phase) (s : S) (fired : Bool)
      → (b.irq s).0 ≡ quiet
      → d.At p (b.irq s).1
      → In p (settle b s fired) × ((settle b s fired).fired ≡ fired)
  unfolding settle handle
  settle-quiet p s fired q h = rw q (h, refl)

  settle-idle :
      (r : Registers) (s : S) (fired : Bool) → d.At (idle r) s → In (idle r) (settle b s fired)
  settle-idle r s fired h = let (q, k) = d.quiet_idle r s h in (settle-quiet (idle r) s fired q k).0

  -- The driver's instructions on an idle disk.
  pub select_drive-In :
      (r : Registers) (a : Ata S)
      → In (idle r) a
      → (v : ℕ) × In (idle (record r { drive = v })) (select_drive b 0 a)
  unfolding select_drive outb
  select_drive-In r a h =
      let r' = record r { drive = 0xa0 } in
      let set = settle-idle r' (b.outb 0x1f6 0xa0 a.bus) a.fired (d.select r 0xa0 a.bus h) in
      (0xa0, settle-idle r' _ _ (d.waits r' _ set))

  pub wait_ready-In :
      (n : ℕ) (r : Registers) (a : Ata S)
      → In (idle r) a
      → ((wait_ready_for b (suc n) a).0 ≡ err_none) × In (idle r) (wait_ready_for b (suc n) a).1
  unfolding wait_ready_for inb
  wait_ready-In n r a h =
      let ((no_error, not_busy, ready), k) = d.status r a.bus h in
      rw (no_error, not_busy, ready) (refl, settle-idle r _ _ k)

  outb-In :
      (r : Registers) (port v : ℕ) (a : Ata S)
      → d.At (idle r) (b.outb port v a.bus)
      → In (idle r) (outb b port v a) × ((outb b port v a).fired ≡ a.fired)
  unfolding outb
  outb-In r port v a h =
      let (q, k) = d.quiet_idle r (b.outb port v a.bus) h in
      settle-quiet (idle r) (b.outb port v a.bus) a.fired q k

  -- The registers after `ata_setup_lba`.
  abbrev programmed : (lba count : ℕ) → Registers
  programmed lba count = record {
    count = count;
    low = lba % 256;
    mid = lba / 2 ^ 8 % 256;
    high = lba / 2 ^ 16 % 256;
    drive = bit_or 0xe0 (lba / 2 ^ 24 % 16);
  }

  setup_lba-In :
      (lba count : ℕ) (r : Registers) (a : Ata S)
      → In (idle r) a
      → In (idle (programmed lba count)) (setup_lba b lba count a)
  unfolding setup_lba
  setup_lba-In lba count r a h =
      let r₁ = record r { count = count } in
      let a₁ = outb b 0x1f2 count a in
      let h₁ : In (idle r₁) a₁ = (outb-In r₁ 0x1f2 count a (d.set_count r count a.bus h)).0 in
      let r₂ = record r₁ { low = lba % 256 } in
      let a₂ = outb b 0x1f3 (lba % 256) a₁ in
      let h₂ : In (idle r₂) a₂ =
        (outb-In r₂ 0x1f3 (lba % 256) a₁ (d.set_low r₁ (lba % 256) a₁.bus h₁)).0 in
      let r₃ = record r₂ { mid = lba / 2 ^ 8 % 256 } in
      let a₃ = outb b 0x1f4 (lba / 2 ^ 8 % 256) a₂ in
      let h₃ : In (idle r₃) a₃ =
        (outb-In r₃ 0x1f4 (lba / 2 ^ 8 % 256) a₂ (d.set_mid r₂ (lba / 2 ^ 8 % 256) a₂.bus h₂)).0 in
      let r₄ = record r₃ { high = lba / 2 ^ 16 % 256 } in
      let a₄ = outb b 0x1f5 (lba / 2 ^ 16 % 256) a₃ in
      let h₄ : In (idle r₄) a₄ =
        (outb-In r₄ 0x1f5 (lba / 2 ^ 16 % 256) a₃
          (d.set_high r₃ (lba / 2 ^ 16 % 256) a₃.bus h₃)).0 in
      (outb-In (programmed lba count) 0x1f6 (bit_or 0xe0 (lba / 2 ^ 24 % 16)) a₄
        (d.select r₄ (bit_or 0xe0 (lba / 2 ^ 24 % 16)) a₄.bus h₄)).0

  -- The registers address the sector.
  high_bits : (x : ℕ) → x < 16 → bit_or 0xe0 x % 16 ≡ x
  unfolding all_below
  high_bits x lt =
      (==_iff (bit_or 0xe0 x % 16) x).0
        (all_below-holds (λ i. bit_or 0xe0 i % 16 == i) 16 x refl lt)

  address_lem : (lba count : ℕ) → lba < 2 ^ 28 → address (programmed lba count) ≡ lba
  address_lem lba count lt = rw (high_bits (lba / 2 ^ 24 % 16) (omega arith)) (omega arith)

  -- The interrupt of a sector is still to come, or it came and the driver has noted it.
  abbrev pub Waiting : (lba n k : ℕ) → Ata S → Type 0
  Waiting lba n k a =
      (In (busy lba n k) a × (a.fired ≡ false)) ⊎ (In (sending lba 0 n) a × (a.fired ≡ true))

  settle-primary :
      (s : S) (fired : Bool)
      → (b.irq s).0 ≡ primary
      → settle b s fired ≡ record { fired = true; bus = (b.inb 0x1f7 (b.irq s).1).1 }
  unfolding settle handle
  settle-primary s fired p = rw p refl

  settle-raised :
      (lba n : ℕ) (s : S) (fired : Bool)
      → (b.irq s).0 ≡ primary
      → d.At (raised lba n) (b.irq s).1
      → In (sending lba 0 n) (settle b s fired) × ((settle b s fired).fired ≡ true)
  settle-raised lba n s fired p k =
      let e = settle-primary s fired p in
      (
        subst (λ (x : Ata S). d.At (sending lba 0 n) x.bus) (sym e)
            (d.acknowledge lba n (b.irq s).1 k),
        ap (λ (x : Ata S). x.fired) e,
      )

  settle-busy : (lba n k : ℕ) (s : S) → d.At (busy lba n k) s → Waiting lba n k (settle b s false)
  settle-busy lba n k s h = elim (d.early lba n k s h) [
    | inl (q, at) ↦ inl (settle-quiet (busy lba n k) s false q at)
    | inr (p, at) ↦ inr (settle-raised lba n s false p at)
  ]

  -- The command behind them.
  pub start_read-In :
      (lba n : ℕ) (r : Registers) (a : Ata S)
      → n < 255
      → lba < 2 ^ 28
      → In (idle r) a
      → Waiting lba n d.limit (start_read b lba (suc n) a)
  unfolding start_read prepare_irq outb
  start_read-In lba n r a small low h =
      let set = setup_lba-In lba (suc n % 2 ^ 8) r a h in
      let a' = setup_lba b lba (suc n % 2 ^ 8) a in
      let sent = d.command (programmed lba (suc n % 2 ^ 8)) n a'.bus (omega arith) set in
      let here =
        subst (λ x. d.At (busy x n d.limit) (b.outb 0x1f7 0x20 a'.bus))
          (address_lem lba (suc n % 2 ^ 8) low) sent in
      settle-busy lba n d.limit (b.outb 0x1f7 0x20 a'.bus) here

  wait_irq-fired : (fuel : ℕ) (a : Ata S) → a.fired ≡ true → wait_irq b fuel a ≡ some a
  unfolding wait_irq
  wait_irq-fired zero a h = if-true a.fired _ _ h
  wait_irq-fired (suc fuel) a h = if-true a.fired _ _ h

  wait_irq-low :
      (fuel : ℕ) (a : Ata S)
      → a.fired ≡ false
      → wait_irq b (suc fuel) a ≡ wait_irq b fuel (settle b (b.hlt a.bus) a.fired)
  unfolding wait_irq
  wait_irq-low fuel a h = if-false a.fired _ _ h

  -- The wait for the interrupt of a sector, which may have come before it.
  pub wait_irq-In :
      (fuel lba n k : ℕ) (a : Ata S)
      → k ≤ fuel
      → Waiting lba n k a
      → (a' : Ata S) × (wait_irq b (suc fuel) a ≡ some a') × In (sending lba 0 n) a'
  wait_irq-In fuel lba n k a le (inr (h, high)) = (a, wait_irq-fired (suc fuel) a high, h)
  wait_irq-In fuel lba n zero a le (inl (h, low)) =
      let (p, at) = d.interrupt lba n (b.hlt a.bus) (d.halts_last lba n a.bus h) in
      let (h', high) = settle-raised lba n (b.hlt a.bus) a.fired p at in
      (
        settle b (b.hlt a.bus) a.fired,
        wait_irq-low fuel a low ∙ wait_irq-fired fuel (settle b (b.hlt a.bus) a.fired) high,
        h',
      )
  wait_irq-In zero lba n (suc k) a le (inl (h, low)) = absurd (omega arith)
  wait_irq-In (suc fuel) lba n (suc k) a le (inl (h, low)) =
      let woken = settle-busy lba n k (b.hlt a.bus) (d.halts lba n k a.bus h) in
      let woken' : Waiting lba n k (settle b (b.hlt a.bus) a.fired) = rw low woken in
      let (a', e, h') =
        wait_irq-In fuel lba n k (settle b (b.hlt a.bus) a.fired) (omega arith) woken' in
      (a', wait_irq-low (suc fuel) a low ∙ e, h')

  -- The words of a sector, from word k on, when the disk sends n sectors behind it.
  abbrev Sent : (lba n : ℕ) → Ata S → Type 0
  Sent lba zero a = (r : Registers) × In (idle r) a
  Sent lba (suc n) a = In (busy (lba + 1) n d.limit) a

  inw-last :
      (lba n : ℕ) (a : Ata S)
      → In (sending lba 255 n) a
      → ((inw b 0x1f0 a).0 ≡ image lba 255) × Sent lba n (inw b 0x1f0 a).1
  unfolding inw
  inw-last lba zero a h =
      let (v, (r, k)) = d.final_word lba a.bus h in (v, (r, settle-idle r _ _ k))
  inw-last lba (suc n) a h =
      let (v, k) = d.last_word lba n a.bus h in
      let (q, k') = d.late (lba + 1) n _ k in
      (v, (settle-quiet (busy (lba + 1) n d.limit) _ _ q k').0)

  inw-word :
      (lba k n : ℕ) (a : Ata S)
      → k < 255
      → In (sending lba k n) a
      → ((inw b 0x1f0 a).0 ≡ image lba k) × In (sending lba (suc k) n) (inw b 0x1f0 a).1
  unfolding inw
  inw-word lba k n a lt h =
      let (v, k₁) = d.word lba k n a.bus lt h in
      let (q, k₂) = d.quiet_sending lba (suc k) n _ k₁ in
      (v, (settle-quiet (sending lba (suc k) n) _ _ q k₂).0)

  pub read_words-In :
      (m lba k n p : ℕ) (buf : ℕ → ℕ) (a : Ata S)
      → k + suc m ≡ 256
      → In (sending lba k n) a
      → Sent lba n (read_words b (suc m) p buf a).1
        × ((i : ℕ)
            → (read_words b (suc m) p buf a).0 i
              ≡ (if leb p i && ltb i (p + suc m) then image lba (k + (i - p)) else buf i))
  unfolding read_words
  read_words-In zero lba k n p buf a sum h =
      let e : k ≡ 255 = omega arith in
      let (v, sent) = inw-last lba n a (subst (λ j. In (sending lba j n) a) e h) in
      (sent, λ i. run-one (image lba) p k i (inw b 0x1f0 a).0 (buf i) (v ∙ ap (image lba) (sym e)))
  read_words-In (suc m) lba k n p buf a sum h =
      let (v, next) = inw-word lba k n a (omega arith) h in
      let (sent, words) =
        read_words-In m lba (suc k) n (p + 1) (update buf p (inw b 0x1f0 a).0) (inw b 0x1f0 a).1
          (omega arith) next in
      (sent, λ i. run-cons (image lba) p k i m (inw b 0x1f0 a).0 (buf i) _ v (words i))
