-- ===== src/Gateway/Round/Timers.antt =====
-- services/rust-sync/src/main.rs: every connection keeps one timer, whatever is done with the map and the heap.
use websocket_stt_bench.Common.{
  ℕ, ◌+◌, ◌≤◌, ◌≡◌, ◌≢◌, refl, sym, ap, subst, ◌∙◌, arith, Bool, false, ◌||◌, Option, none, some,
  List, [], ◌∷◌, ◌++◌, ◌==◌, ==_iff, if◌then◌else◌, if_cases, Bool-cases, inl, inr,
}
use websocket_stt_bench.Gateway.Config.{Config}
use websocket_stt_bench.Gateway.Inference.{Cmd}
use websocket_stt_bench.Gateway.Session.{Conn, Outcome, keep, close, deadline, new}
use websocket_stt_bench.Gateway.Loop.{
  Loop, Accepted, stream, accept_interrupted, accept_ended, new_loop, insert, accept,
}
use websocket_stt_bench.Gateway.Round.{
  Turn, find, closing_with, settle, advance, drop_conn, close_conns,
}
use websocket_stt_bench.Gateway.Round.Heap.{
  Picked, times, times-Picked_other, times-Picked_nil, times-Picked_own, find-put, find-without,
}

abbrev listed : List ℕ → ℕ → Bool
listed [] i = false
listed (x ∷ xs) i = x == i || listed xs i

listed-append :
    (xs : List ℕ) (x i : ℕ) → listed (xs ++ x ∷ []) i ≡ false → (listed xs i ≡ false) × (i ≢ x)
listed-append [] x i h = ground (arith, h)
listed-append (y ∷ xs) x i h = ground (arith, h, listed-append xs x i)

some_inj {ℓ} : {A : Type ℓ} (a b : A) → ◌≡◌ {A = Option A} (some a) (some b) → a ≡ b
some_inj a b h = cc

none-ne-some {ℓ} : {A : Type ℓ} (a : A) → ◌≡◌ {A = Option A} none (some a) → ⊥
none-ne-some a h = cc

listed-closing_with :
    (o : Outcome) (id i : ℕ) (ids : List ℕ)
    → listed (closing_with o id ids) i ≡ false
    → listed ids i ≡ false
listed-closing_with keep id i ids h = h
listed-closing_with close id i ids h = (listed-append ids id i h).0

module _ {F T : Type 0} where
  -- A connection has one timer, which is not later than its deadline.
  abbrev pub HasTimer : Loop F T → ℕ → Conn F T → Type 0
  HasTimer l i c = (t : ℕ) × (times i l.timers ≡ t ∷ []) × (t ≤ deadline c)

  pub record IsTimed (closing : List ℕ) (l : Loop F T) : Type 0 where
    pub timed :
        (i : ℕ) (c : Conn F T) → find i l.conns ≡ some c → listed closing i ≡ false → HasTimer l i c
    pub unused : (i : ℕ) → l.next_id ≤ i → times i l.timers ≡ []

  pub new_loop-IsTimed : IsTimed [] new_loop
  unfolding new_loop find
  new_loop-IsTimed = record { timed = λ i c e h. cc e; unused = λ i h. refl }

  insert-IsTimed :
      (ids : List ℕ) (l : Loop F T) (now phase : ℕ) (config : Config)
      → IsTimed ids l
      → IsTimed ids (insert l now phase config)
  unfolding insert find
  insert-IsTimed ids l now phase config v = record {
    timed = λ i c e h. elim (Bool-cases (l.next_id == i)) [
      | inl on ↦
          let c' : Conn F T = new l.next_id now phase config in
          (
            deadline c',
            rw on (ap (◌∷◌ (deadline c')) (v.unused i (ground (arith, on)))),
            subst (λ (k : Conn F T). deadline c' ≤ deadline k) (some_inj c' c (rw on at e))
                (omega arith),
          )
      | inr off ↦ rw off (v.timed i c (rw off at e) h)
    ];
    unused = λ i h. ground (arith, h, v.unused i);
  }

  pub accept-IsTimed :
      (ids : List ℕ) (l : Loop F T) (streams : List Accepted) (config : Config)
      → IsTimed ids l
      → IsTimed ids (accept l streams config)
  unfolding accept
  accept-IsTimed ids l [] config v = v
  accept-IsTimed ids l (stream registered now phase ∷ rest) config v =
      accept-IsTimed ids
        (if registered then insert l now phase config else record l { next_id = l.next_id + 1 })
        rest config
        (if_cases (IsTimed ids) registered (λ on. insert-IsTimed ids l now phase config v)
          (λ off. record { timed = v.timed; unused = λ i h. v.unused i (omega (arith, h)) }))
  accept-IsTimed ids l (accept_interrupted ∷ rest) config v = accept-IsTimed ids l rest config v
  accept-IsTimed ids l (accept_ended ∷ rest) config v = v

  -- A connection that moves, and whose deadline comes no earlier.
  pub settle-IsTimed :
      (t : Turn F T) (id : ℕ) (c d : Conn F T) (o : Outcome)
      → find id t.loop.conns ≡ some c
      → deadline c ≤ deadline d
      → IsTimed t.closing t.loop
      → IsTimed (settle t id (d, o)).closing (settle t id (d, o)).loop
  unfolding settle
  settle-IsTimed t id c d o e late v = record {
    timed = λ i x f h.
        let here = listed-closing_with o id i t.closing h in
        let g : (if id == i then some d else find i t.loop.conns) ≡ some x =
          sym (find-put i id d c t.loop.conns e) ∙ f in
        elim (Bool-cases (id == i)) [
          | inl on ↦
              let (u, own, due) =
                v.timed i c (subst (λ k. find k t.loop.conns ≡ some c) ((==_iff id i).0 on) e)
                  here in
              (
                u,
                own,
                subst (λ (k : Conn F T). u ≤ deadline k) (some_inj d x (rw on at g))
                    (omega (arith, due, late)),
              )
          | inr off ↦ v.timed i x (rw off at g) here
        ];
    unused = v.unused;
  }

  -- A timer that is due is taken: its connection gets a new one, or closes.
  pub advance-IsTimed :
      (o : Outcome) (t : Turn F T) (e : ℕ × ℕ) (others : List (ℕ × ℕ)) (c d : Conn F T)
      (cmds : List Cmd)
      → find e.1 t.loop.conns ≡ some c
      → Picked e t.loop.timers others
      → IsTimed t.closing t.loop
      → let t' = advance o (record t { loop = record t.loop { timers = others } }) e.1 d cmds in
        IsTimed t'.closing t'.loop
  advance-IsTimed keep t e others c d cmds found p v = record {
    timed = λ i x f h.
        let g : (if e.1 == i then some d else find i t.loop.conns) ≡ some x =
          sym (find-put i e.1 d c t.loop.conns found) ∙ f in
        elim (Bool-cases (e.1 == i)) [
          | inl on ↦
              let same = (==_iff e.1 i).0 on in
              let (u, own, due) = v.timed e.1 c found (rw same h) in
              (
                deadline d,
                rw on (
                    ap (◌∷◌ (deadline d))
                      (subst (λ k. times k others ≡ []) same (times-Picked_own u p own))),
                subst (λ (k : Conn F T). deadline d ≤ deadline k) (some_inj d x (rw on at g))
                    (omega arith),
              )
          | inr off ↦
              rw off
                (rw (times-Picked_other i p (ground (arith, off))) (v.timed i x (rw off at g) h))
        ];
    unused = λ i h.
        let (gone, other) = times-Picked_nil i p (v.unused i h) in ground (arith, gone, other);
  }
  advance-IsTimed close t e others c d cmds found p v = record {
    timed = λ i x f h.
        let (live, other) = listed-append t.closing e.1 i h in
        let g : (if e.1 == i then some d else find i t.loop.conns) ≡ some x =
          sym (find-put i e.1 d c t.loop.conns found) ∙ f in
        rw (times-Picked_other i p other) (v.timed i x (ground (arith, g, other)) live);
    unused = λ i h. (times-Picked_nil i p (v.unused i h)).0;
  }

  -- A timer of a connection that is gone is dropped.
  pub forget-IsTimed :
      (t : Turn F T) (e : ℕ × ℕ) (others : List (ℕ × ℕ))
      → find e.1 t.loop.conns ≡ none
      → Picked e t.loop.timers others
      → IsTimed t.closing t.loop
      → IsTimed t.closing (record t.loop { timers = others })
  forget-IsTimed t e others found p v = record {
    timed = λ i c f h.
        rw
          (times-Picked_other i p
            (λ same. none-ne-some c (sym found ∙ subst (λ k. find k t.loop.conns ≡ some c) same f)))
          (v.timed i c f h);
    unused = λ i h. (times-Picked_nil i p (v.unused i h)).0;
  }

  close_conn-IsTimed :
      (o : Option (Conn F T)) (l : Loop F T) (id : ℕ) (rest : List ℕ)
      → find id l.conns ≡ o
      → IsTimed (id ∷ rest) l
      → IsTimed rest (drop_conn o id l).0
  close_conn-IsTimed none l id rest found v = record {
    timed = λ i c f h. elim (Bool-cases (id == i)) [
      | inl on ↦ absurd (
          none-ne-some c
            (sym found ∙ subst (λ k. find k l.conns ≡ some c) (sym ((==_iff id i).0 on)) f))
      | inr off ↦ v.timed i c f (rw off h)
    ];
    unused = v.unused;
  }
  close_conn-IsTimed (some d) l id rest found v = record {
    timed = λ i c f h.
        let g : (if id == i then none else find i l.conns) ≡ some c =
          sym (find-without i id l.conns) ∙ f in
        elim (Bool-cases (id == i)) [
          | inl on ↦ absurd (none-ne-some c (rw on at g))
          | inr off ↦ v.timed i c (rw off at g) (rw off h)
        ];
    unused = v.unused;
  }

  pub close_conns-IsTimed :
      (l : Loop F T) (ids : List ℕ) → IsTimed ids l → IsTimed [] (close_conns l ids).0
  unfolding close_conns
  close_conns-IsTimed l [] v = v
  close_conns-IsTimed l (id ∷ rest) v =
      close_conns-IsTimed (drop_conn (find id l.conns) id l).0 rest
        (close_conn-IsTimed (find id l.conns) l id rest refl v)

  -- Closing leaves the timers.
  pub close_conns-timers : (l : Loop F T) (ids : List ℕ) → (close_conns l ids).0.timers ≡ l.timers
  unfolding close_conns
  close_conns-timers l [] = refl
  close_conns-timers l (id ∷ rest) =
      close_conns-timers (drop_conn (find id l.conns) id l).0 rest ∙ by_found (find id l.conns)
    where
      by_found : (o : Option (Conn F T)) → (drop_conn o id l).0.timers ≡ l.timers
      by_found none = refl
      by_found (some c) = refl
