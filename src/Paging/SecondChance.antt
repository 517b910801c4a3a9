-- ===== src/Paging/SecondChance.antt =====
-- xv6-memory-management/kernel/vm.c, `try_evict_one` with USE_CLOCK: the page that it picks, and the
-- ones that get a second chance.
use systems_suite.Prelude.{
  ℕ, zero, suc, ◌+◌, ◌%◌, ◌<◌, ◌≡◌, ◌≢◌, refl, sym, subst, ap, ◌∙◌, Bool, true, false, Option, none,
  some, arith, ltb,
}
use systems_suite.Paging.Space.{pgmeta_size, PageMeta, Space, set_meta}
use systems_suite.Paging.Evict.{is_candidate, evict_from}
use systems_suite.Paging.Clock.{
  Look, pass_by, give_chance, pick, look, clock_scan, clock_victim, clock_evict_one,
}
use systems_suite.Paging.Hand.{
  distance, second_chance, is_pick, GivesUp, Answers, OnItsWay, write_here, write_there, under_hand,
  next_hand, moves_on, circle_ends, picks,
}

look-pick : (m : PageMeta) → look m ≡ pick → is_pick m ≡ true
unfolding look
look-pick m e = ground arith

look-pass_by : (m : PageMeta) → look m ≡ pass_by → is_candidate m ≡ false
unfolding look
look-pass_by m e = ground arith

look-give_chance :
    (m : PageMeta) → look m ≡ give_chance → (is_candidate m ≡ true) × (m.referenced ≡ true)
unfolding look
look-give_chance m e = ground arith

referenced_not_picked : (m : PageMeta) → m.referenced ≡ true → is_pick m ≡ false
referenced_not_picked m e = ground arith

chance_given :
    (m : PageMeta) → is_candidate m ≡ true → record m { referenced = false } ≡ second_chance m
chance_given m e = rw e refl

module _ (start : ℕ) (s : Space) (inside : start < pgmeta_size) where
  passes :
      (k : ℕ) (now : Space)
      → k < pgmeta_size
      → OnItsWay start s k now
      → look (now.pgmeta ((start + k) % pgmeta_size)) ≡ pass_by
      → OnItsWay start s (suc k) now
  passes k now h w e =
      let same = under_hand start s inside k now h w in
      let none_there = look-pass_by _ e in
      moves_on start s inside k now now h w
        (subst (λ m. is_pick m ≡ false) same (rw none_there refl)) (rw none_there refl)
        (λ j ne. refl)

  gives_chance :
      (k : ℕ) (now : Space)
      → k < pgmeta_size
      → OnItsWay start s k now
      → look (now.pgmeta ((start + k) % pgmeta_size)) ≡ give_chance
      → let i = (start + k) % pgmeta_size in
        OnItsWay start s (suc k) (set_meta i (record (now.pgmeta i) { referenced = false }) now)
  gives_chance k now h w e =
      let i = (start + k) % pgmeta_size in
      let same = under_hand start s inside k now h w in
      let used = look-give_chance _ e in
      moves_on start s inside k now (set_meta i (record (now.pgmeta i) { referenced = false }) now)
        h w (subst (λ m. is_pick m ≡ false) same (referenced_not_picked (now.pgmeta i) used.1))
        (write_here now.pgmeta i _ ∙ chance_given (now.pgmeta i) used.0)
        (λ j ne. write_there now.pgmeta i j _ ne)

  scan-Answers :
      (left k : ℕ) (now : Space)
      → left + k ≡ pgmeta_size
      → OnItsWay start s k now
      → let r = clock_scan left ((start + k) % pgmeta_size) now in Answers start s r.0 r.1
  unfolding clock_scan
  scan-Answers zero k now e w =
      circle_ends start s inside now (subst (λ n. OnItsWay start s n now) (omega arith) w)
  scan-Answers (suc left) k now e w =
      go (scan-Answers left (suc k)) (look (now.pgmeta ((start + k) % pgmeta_size))) refl
    where
      i : ℕ
      i = (start + k) % pgmeta_size

      go :
          ((next : Space)
            → left + suc k ≡ pgmeta_size
            → OnItsWay start s (suc k) next
            → let r = clock_scan left ((start + suc k) % pgmeta_size) next in
              Answers start s r.0 r.1)
          → (l : Look) → look (now.pgmeta i) ≡ l
          → let r : Option ℕ × Space = elim l [
            | pass_by ↦ clock_scan left ((i + 1) % pgmeta_size) now
            | give_chance ↦
                clock_scan left
                  ((i + 1) % pgmeta_size)
                  (set_meta i (record (now.pgmeta i) { referenced = false }) now)
            | pick ↦ (some i, now)
          ] in
            Answers start s r.0 r.1
      go ih pass_by l =
          rw (next_hand start s inside k) (ih now (omega arith) (passes k now (omega arith) w l))
      go ih give_chance l = rw (next_hand start s inside k) (
          ih (set_meta i (record (now.pgmeta i) { referenced = false }) now) (omega arith)
            (gives_chance k now (omega arith) w l))
      go ih pick l = picks start s inside k now (omega arith) w (
          subst (λ m. is_pick m ≡ true) (under_hand start s inside k now (omega arith) w)
            (look-pick (now.pgmeta i) l))

-- Of the resident pages but the one at address 0, which it passes by, CLOCK picks the first from the
-- hand on, round the table, that was not referenced since its last chance, and takes the mark from
-- those before it. It picks none only if all of them were referenced, and then it has taken all
-- their marks.
pub clock_victim-Answers :
    (s : Space) → Answers (s.clock_hand % pgmeta_size) s (clock_victim s).0 (clock_victim s).1
unfolding clock_victim
clock_victim-Answers s =
    let start = s.clock_hand % pgmeta_size in
    let here : (start + 0) % pgmeta_size ≡ start = omega arith in
    subst (λ i. let r = clock_scan pgmeta_size i s in Answers start s r.0 r.1) here
      (scan-Answers start s (omega arith) pgmeta_size 0 s (omega arith) (record {
        none_yet = λ j lt d. elim d [ ];
        table = λ j lt. let e : ltb (distance start j) 0 ≡ false = ground arith in sym (rw e refl);
      }))

-- The resident pages were all referenced.
abbrev pub AllReferenced : Space → Type 0
AllReferenced s =
    (j : ℕ) → j < pgmeta_size → is_candidate (s.pgmeta j) ≡ true → (s.pgmeta j).referenced ≡ true

pick_unreferenced :
    (m : PageMeta) → is_pick m ≡ true → (is_candidate m ≡ true) × (m.referenced ≡ false)
pick_unreferenced m e = ground arith

second_chance-is_pick : (m : PageMeta) → is_candidate m ≡ true → is_pick (second_chance m) ≡ true
second_chance-is_pick m e = ground arith

none_answered :
    (start : ℕ) (s s' : Space) (o : Option ℕ) → AllReferenced s → Answers start s o s' → o ≡ none
none_answered start s s' none all a = refl
none_answered start s s' (some i) all a =
    let p = pick_unreferenced (s.pgmeta i) a.picked in
    let marked = all i a.below p.0 in let bare = p.1 in absurd (cc)

none_evicted :
    (written : Bool) (s : Space)
    → (clock_victim s).0 ≡ none
    → clock_evict_one written s ≡ (false, (clock_victim s).1)
unfolding clock_evict_one evict_from
none_evicted written s e = ap (λ o. evict_from written o (clock_victim s).1) e

-- If all resident pages were referenced, and there is one, CLOCK evicts nothing, though the same
-- scan made once more would find a page.
pub clock_gives_up :
    (written : Bool) (s : Space) (r : ℕ)
    → AllReferenced s
    → r < pgmeta_size
    → is_candidate (s.pgmeta r) ≡ true
    → ((clock_evict_one written s).0 ≡ false)
      × ((clock_victim (clock_evict_one written s).1).0 ≢ none)
clock_gives_up written s r all lt resident = (
  ap (λ x. x.0) evicted,
  λ none_again. again (ap (λ x. (clock_victim x.1).0) (sym evicted) ∙ none_again),
)
  where
    start : ℕ
    start = s.clock_hand % pgmeta_size

    s' : Space
    s' = (clock_victim s).1

    first : (clock_victim s).0 ≡ none
    first = none_answered start s s' (clock_victim s).0 all (clock_victim-Answers s)

    evicted : clock_evict_one written s ≡ (false, s')
    evicted = none_evicted written s first

    chances : GivesUp s s'
    chances = subst (λ o. Answers start s o s') first (clock_victim-Answers s)

    open_again : is_pick (s'.pgmeta r) ≡ true
    open_again =
        subst (λ m. is_pick m ≡ true) (sym (chances.passed r lt))
          (second_chance-is_pick (s.pgmeta r) resident)

    again : (clock_victim s').0 ≢ none
    again e =
        let f : GivesUp s' (clock_victim s').1 =
          subst (λ o. Answers (s'.clock_hand % pgmeta_size) s' o (clock_victim s').1) e
            (clock_victim-Answers s') in
        let shut = f.no_pick r lt in let is_open = open_again in absurd (cc)
