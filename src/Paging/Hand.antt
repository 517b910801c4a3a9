-- ===== src/Paging/Hand.antt =====
-- xv6-memory-management/kernel/vm.c, `try_evict_one` with USE_CLOCK: the hand on its way round the
-- table of pages.
use systems_suite.Prelude.{
  ℕ, suc, ◌+◌, ◌-◌, ◌%◌, ◌<◌, ◌≡◌, ◌≢◌, refl, sym, subst, ap, ◌∙◌, Bool, true, false, not, ◌&&◌,
  Option, none, some, arith, ltb, ◌==◌, if◌then◌else◌, write, dec_lt, ℕ_discrete,
}
use systems_suite.Paging.Space.{pgmeta_size, PageMeta, Space}
use systems_suite.Paging.Evict.{is_candidate}

-- An entry that the hand has passed.
abbrev pub second_chance : PageMeta → PageMeta
second_chance m = if is_candidate m then record m { referenced = false } else m

abbrev pub is_pick : PageMeta → Bool
is_pick m = is_candidate m && not m.referenced

-- How far the hand goes before it stands at entry `j`.
abbrev pub distance : ℕ → ℕ → ℕ
distance start j = (j + pgmeta_size - start) % pgmeta_size

-- The table after the hand has gone `k` entries on.
abbrev pub swept : ℕ → ℕ → Space → ℕ → PageMeta
swept start k s j = if ltb (distance start j) k then second_chance (s.pgmeta j) else s.pgmeta j

-- What the scan may answer.
pub record Picks (start : ℕ) (s : Space) (i : ℕ) (s' : Space) : Type 0 where
  pub below : i < pgmeta_size
  pub picked : is_pick (s.pgmeta i) ≡ true
  pub first :
      (j : ℕ) → j < pgmeta_size → distance start j < distance start i → is_pick (s.pgmeta j) ≡ false
  pub passed : (j : ℕ) → j < pgmeta_size → s'.pgmeta j ≡ swept start (distance start i) s j

pub record GivesUp (s s' : Space) : Type 0 where
  pub no_pick : (j : ℕ) → j < pgmeta_size → is_pick (s.pgmeta j) ≡ false
  pub passed : (j : ℕ) → j < pgmeta_size → s'.pgmeta j ≡ second_chance (s.pgmeta j)

abbrev pub Answers : ℕ → Space → Option ℕ → Space → Type 0
Answers start s none s' = GivesUp s s'
Answers start s (some i) s' = Picks start s i s'

-- The hand on its way: `k` entries are behind it and none of them was to be picked.
pub record OnItsWay (start : ℕ) (s : Space) (k : ℕ) (now : Space) : Type 0 where
  pub none_yet : (j : ℕ) → j < pgmeta_size → distance start j < k → is_pick (s.pgmeta j) ≡ false
  pub table : (j : ℕ) → j < pgmeta_size → now.pgmeta j ≡ swept start k s j

pub write_here : {A : Type 0} (f : ℕ → A) (i : ℕ) (v : A) → write f i v i ≡ v
write_here f i v = let e : (i == i) ≡ true = ground arith in rw e refl

pub write_there : {A : Type 0} (f : ℕ → A) (i j : ℕ) (v : A) → j ≢ i → write f i v j ≡ f j
write_there f i j v ne = let e : (i == j) ≡ false = ground arith in rw e refl

module _ (start : ℕ) (s : Space) (inside : start < pgmeta_size) where
  at_hand : (k : ℕ) → k < pgmeta_size → distance start ((start + k) % pgmeta_size) ≡ k
  at_hand k h = omega arith

  only_hand :
      (j k : ℕ)
      → j < pgmeta_size
      → k < pgmeta_size
      → distance start j ≡ k
      → j ≡ (start + k) % pgmeta_size
  only_hand j k h l e = omega arith

  pub next_hand :
      (k : ℕ) → ((start + k) % pgmeta_size + 1) % pgmeta_size ≡ (start + suc k) % pgmeta_size
  next_hand k = omega arith

  -- The entry under the hand is as it was at the start.
  pub under_hand :
      (k : ℕ) (now : Space)
      → k < pgmeta_size
      → OnItsWay start s k now
      → now.pgmeta ((start + k) % pgmeta_size) ≡ s.pgmeta ((start + k) % pgmeta_size)
  under_hand k now h w =
      w.table ((start + k) % pgmeta_size) (omega arith)
      ∙ (let e : ltb (distance start ((start + k) % pgmeta_size)) k ≡ false =
            (let d = at_hand k h in ground arith) in
          rw e refl)

  distance_suc : (d k : ℕ) → d ≢ k → ltb d (suc k) ≡ ltb d k
  distance_suc d k ne = ground arith

  -- The hand moves on from an entry that is not picked.
  module _ (k : ℕ) (now next : Space) (h : k < pgmeta_size) (w : OnItsWay start s k now)
      (not_it : is_pick (s.pgmeta ((start + k) % pgmeta_size)) ≡ false)
      (here : next.pgmeta ((start + k) % pgmeta_size)
        ≡ second_chance (now.pgmeta ((start + k) % pgmeta_size)))
      (elsewhere : (j : ℕ) → j ≢ (start + k) % pgmeta_size → next.pgmeta j ≡ now.pgmeta j) where
    swept_here :
        next.pgmeta ((start + k) % pgmeta_size) ≡ swept start (suc k) s ((start + k) % pgmeta_size)
    swept_here =
        let e : ltb (distance start ((start + k) % pgmeta_size)) (suc k) ≡ true =
          (let d = at_hand k h in ground arith) in
        here ∙ ap second_chance (under_hand k now h w) ∙ (rw e refl)

    swept_elsewhere :
        (j : ℕ)
        → j < pgmeta_size
        → j ≢ (start + k) % pgmeta_size
        → next.pgmeta j ≡ swept start (suc k) s j
    swept_elsewhere j lt ne =
        let e = distance_suc (distance start j) k (λ e. ne (only_hand j k lt h e)) in
        elsewhere j ne ∙ w.table j lt ∙ (rw e refl)

    pub moves_on : OnItsWay start s (suc k) next
    moves_on = record {
      none_yet = λ j lt d. elim (dec_lt (distance start j) k) [
        | yes old ↦ w.none_yet j lt old
        | no new ↦
            subst (λ i. is_pick (s.pgmeta i) ≡ false) (sym (only_hand j k lt h (omega arith)))
              not_it
      ];
      table = λ j lt. elim (ℕ_discrete j ((start + k) % pgmeta_size)) [
        | yes e ↦ subst (λ i. next.pgmeta i ≡ swept start (suc k) s i) (sym e) swept_here
        | no ne ↦ swept_elsewhere j lt ne
      ];
    }

  -- The end of the circle, and a pick.
  pub circle_ends : (now : Space) → OnItsWay start s pgmeta_size now → GivesUp s now
  circle_ends now w = record {
    no_pick = λ j lt. w.none_yet j lt (omega arith);
    passed = λ j lt.
        let e : ltb (distance start j) pgmeta_size ≡ true = ground arith in
        w.table j lt ∙ (rw e refl);
  }

  pub picks :
      (k : ℕ) (now : Space)
      → k < pgmeta_size
      → OnItsWay start s k now
      → is_pick (s.pgmeta ((start + k) % pgmeta_size)) ≡ true
      → Picks start s ((start + k) % pgmeta_size) now
  picks k now h w it =
      let d : distance start ((start + k) % pgmeta_size) ≡ k = at_hand k h in
      record {
        below = omega arith;
        picked = it;
        first = λ j lt l. w.none_yet j lt (omega (arith, d));
        passed = λ j lt. w.table j lt ∙ (rw d refl);
      }
