-- ===== src/Elect/Processes/Recorded.antt =====
-- The election on Windows, whose lock does not name its holder: what `announce` of
-- src/os/windows.rs recorded beside the lock, and what `holder` then tells each process.
use zapd.Prelude.{
  ℕ, ◌≡◌, ◌≢◌, inl, inr, refl, sym, ◌∙◌, subst, Bool, true, false, Option, some, Bool-cases,
  Option-cases, update, update_self, update_ne, update_all,
}
use zapd.Io.{ok}
use zapd.Elect.{holder, os_holder}
use zapd.Elect.Processes.{
  Lock, Shared, Phase, standing, granted, announced, serving, failed, resigning, resting, gone,
  Move, System, pick, start, Reach, here, later, cannot_lock, win, announce, cannot_announce, elect,
  fail, resign, unlock, cannot_unlock, stand_again, exit,
}
use zapd.Elect.Processes.Invariant.{holds, is_elected, Reach-Inv}
use zapd.Elect.Processes.Holder.{one_router}

-- After its own announcement, until it drops the lock.
abbrev pub is_announced : Phase → Bool
is_announced announced = true
is_announced serving = true
is_announced failed = true
is_announced resigning = true
is_announced _ = false

announced-holds : (p : Phase) → is_announced p ≡ true → holds p ≡ true
announced-holds standing e = absurd (cc)
announced-holds granted e = absurd (cc)
announced-holds announced e = refl
announced-holds serving e = refl
announced-holds failed e = refl
announced-holds resigning e = refl
announced-holds resting e = absurd (cc)
announced-holds gone e = absurd (cc)

elected-announced : (p : Phase) → is_elected p ≡ true → is_announced p ≡ true
elected-announced standing e = absurd (cc)
elected-announced granted e = absurd (cc)
elected-announced announced e = refl
elected-announced serving e = refl
elected-announced failed e = refl
elected-announced resigning e = absurd (cc)
elected-announced resting e = absurd (cc)
elected-announced gone e = absurd (cc)

module _ {L : Type 0} (os : Lock L) where
  -- Whether the move is no failed announcement.
  abbrev pub announces : {k : ℕ} {s s' : Shared L} {p p' : Phase} → Move os k s p s' p' → Bool
  announces cannot_announce = false
  announces cannot_lock = true
  announces (win l t) = true
  announces announce = true
  announces elect = true
  announces fail = true
  announces resign = true
  announces unlock = true
  announces cannot_unlock = true
  announces stand_again = true
  announces (exit p n) = true

  -- Runs in which no announcement fails.
  pub data Announcing (x : System L) : System L → Type 0 where
    begin : Announcing x x
    next :
        {y : System L} {k : ℕ} {s : Shared L} {p : Phase}
        → Announcing x y
        → (mv : Move os k y.shared (y.phases k) s p) → announces mv ≡ true
        → Announcing x (record { shared = s; phases = update y.phases k p })

  pub Announcing-Reach : {x y : System L} → Announcing x y → Reach os x y
  Announcing-Reach begin = here
  Announcing-Reach (next r mv e) = later (Announcing-Reach r) (pick _ mv)

  Move-recorded :
      {k : ℕ} {s s' : Shared L} {p p' : Phase} (mv : Move os k s p s' p')
      → announces mv ≡ true
      → (is_announced p ≡ true → s.recorded ≡ some k)
      → is_announced p' ≡ true
      → s'.recorded ≡ some k
  Move-recorded cannot_announce c h e = absurd (cc)
  Move-recorded cannot_lock c h e = absurd (cc)
  Move-recorded (win l t) c h e = absurd (cc)
  Move-recorded announce c h e = refl
  Move-recorded elect c h e = h refl
  Move-recorded fail c h e = h refl
  Move-recorded resign c h e = h refl
  Move-recorded unlock c h e = absurd (cc)
  Move-recorded cannot_unlock c h e = absurd (cc)
  Move-recorded stand_again c h e = absurd (cc)
  Move-recorded (exit p n) c h e = absurd (cc)

  -- A process that announces has the lock, so no other process has announced.
  Move-recorded_other :
      {k : ℕ} {s s' : Shared L} {p p' : Phase} (mv : Move os k s p s' p') (l : ℕ)
      → k ≢ l
      → (holds p ≡ true → os.owner s.lock ≡ some k)
      → os.owner s.lock ≡ some l
      → s.recorded ≡ some l
      → s'.recorded ≡ some l
  Move-recorded_other cannot_announce l ne own h e = e
  Move-recorded_other cannot_lock l ne own h e = e
  Move-recorded_other (win a t) l ne own h e = e
  Move-recorded_other {k} announce l ne own h e =
      let same : k ≡ l = cc (own refl, h) in absurd (ne same)
  Move-recorded_other elect l ne own h e = e
  Move-recorded_other fail l ne own h e = e
  Move-recorded_other resign l ne own h e = e
  Move-recorded_other unlock l ne own h e = e
  Move-recorded_other cannot_unlock l ne own h e = e
  Move-recorded_other stand_again l ne own h e = e
  Move-recorded_other (exit p n) l ne own h e = e

  -- Who has announced and not dropped the lock, the record names.
  abbrev IsRecorded : System L → Type 0
  IsRecorded x = (k : ℕ) → is_announced (x.phases k) ≡ true → x.shared.recorded ≡ some k

  Announcing-IsRecorded :
      (left : Option ℕ) {x : System L} → Announcing (start os left) x → IsRecorded x
  Announcing-IsRecorded left begin = λ k e. absurd (cc)
  Announcing-IsRecorded left (next {y} {k} {s} {p} r mv c) =
      let h = Announcing-IsRecorded left r in
      let inv = Reach-Inv os left (Announcing-Reach r) in
      update_all y.phases k p (λ l q. is_announced q ≡ true → s.recorded ≡ some l)
        (Move-recorded mv c (h k))
        (λ l ne e.
          Move-recorded_other mv l ne (inv.own k) (inv.own l (announced-holds (y.phases l) e))
            (h l e))

  -- On Windows, where each announcement succeeds: while a process is the router, every process that
  -- has the lock file open is told its pid, itself included.
  pub recorded_router :
      (left : Option ℕ) {x : System L}
      → Announcing (start os left) x
      → (j k f : ℕ) → x.shared.elected j ≡ true
      → holder (x.shared.elected k) k (λ f. x.shared.recorded) (ok f) ≡ some j
  unfolding holder os_holder
  recorded_router left {x} r j k f e = elim (Bool-cases (x.shared.elected k)) [
    | inl t ↦ let same = one_router os left (Announcing-Reach r) j k e t in rw t (cc)
    | inr n ↦ rw n (
        Announcing-IsRecorded left r j (
          elected-announced (x.phases j)
            (sym ((Reach-Inv os left (Announcing-Reach r)).told j) ∙ e)))
  ]

  step_from :
      {k : ℕ} {x y : System L} {s : Shared L} {p q : Phase}
      → Reach os x y
      → y.phases k ≡ q
      → Move os k y.shared q s p
      → Reach os x (record { shared = s; phases = update y.phases k p })
  step_from {k} {x} {y} {s} {p} r e mv =
      later r (pick k (subst (λ q. Move os k y.shared q s p) (sym e) mv))

  module _ (left j : ℕ) (l : L) where
    abbrev won : System L
    won = record {
      shared = record (start os (some left)).shared { lock = l };
      phases = update (λ k. standing) j granted;
    }

    abbrev unrecorded : System L
    unrecorded = record won { phases = update won.phases j announced }

    abbrev router : System L
    router = record {
      shared = record won.shared { elected = update (λ k. false) j true };
      phases = update unrecorded.phases j serving;
    }

    router-Reach : os.take j os.free ≡ some l → Reach os (start os (some left)) router
    router-Reach t =
        step_from
          (step_from (later here (pick j (win l t))) (update_self (λ k. standing) j granted)
            cannot_announce)
          (update_self won.phases j announced) elect

  -- After a failed announcement a process can be the router while every other process is told the pid
  -- that an earlier router left in the record.
  pub stale_record :
      (left j : ℕ)
      → (x : System L) × Reach os (start os (some left)) x
        × (x.shared.elected j ≡ true)
        × ((k f : ℕ)
            → k ≢ j
            → holder (x.shared.elected k) k (λ f. x.shared.recorded) (ok f) ≡ some left)
  unfolding holder os_holder
  stale_record left j = elim (Option-cases (os.take j os.free)) [
    | inl n ↦ absurd (os.take_free j os.free os.owner-free n)
    | inr (l, t) ↦ (
      router left j l,
      router-Reach left j l t,
      update_self (λ k. false) j true,
      λ k f ne. rw (update_ne (λ k. false) j true k (λ e. ne (sym e))) refl,
    )
  ]
