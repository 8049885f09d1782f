-- ===== src/Elect/Processes/Invariant.antt =====
-- Which phases have the lock, and which `ELECTED` says, kept by every move of every process.
use zapd.Prelude.{
  ℕ, ◌≡◌, ◌≢◌, refl, sym, ◌∙◌, Bool, true, false, Option, some, update_self, update_ne, update_all,
}
use zapd.Elect.Processes.{
  Lock, Shared, Phase, standing, granted, announced, serving, failed, resigning, resting, gone,
  Move, System, Step, pick, start, Reach, here, later, cannot_lock, win, announce, cannot_announce,
  elect, fail, resign, unlock, cannot_unlock, stand_again, exit,
}

abbrev pub holds : Phase → Bool
holds granted = true
holds announced = true
holds serving = true
holds failed = true
holds resigning = true
holds _ = false

abbrev pub is_elected : Phase → Bool
is_elected serving = true
is_elected failed = true
is_elected _ = false

pub elected-holds : (p : Phase) → is_elected p ≡ true → holds p ≡ true
elected-holds standing e = absurd (cc)
elected-holds granted e = absurd (cc)
elected-holds announced e = absurd (cc)
elected-holds serving e = refl
elected-holds failed e = refl
elected-holds resigning e = absurd (cc)
elected-holds resting e = absurd (cc)
elected-holds gone e = absurd (cc)

module _ {L : Type 0} (os : Lock L) where
  pub record Inv (x : System L) : Type 0 where
    pub own : (k : ℕ) → holds (x.phases k) ≡ true → os.owner x.shared.lock ≡ some k
    pub told : (k : ℕ) → x.shared.elected k ≡ is_elected (x.phases k)

  Move-own :
      {k : ℕ} {s s' : Shared L} {p p' : Phase}
      → Move os k s p s' p'
      → (holds p ≡ true → os.owner s.lock ≡ some k)
      → holds p' ≡ true
      → os.owner s'.lock ≡ some k
  Move-own cannot_lock h e = absurd (cc)
  Move-own {k} {s} (win l t) h e = os.owner-take k s.lock l t
  Move-own announce h e = h refl
  Move-own cannot_announce h e = h refl
  Move-own elect h e = h refl
  Move-own fail h e = h refl
  Move-own resign h e = h refl
  Move-own unlock h e = absurd (cc)
  Move-own cannot_unlock h e = absurd (cc)
  Move-own stand_again h e = absurd (cc)
  Move-own (exit p n) h e = absurd (cc)

  released : (k l : ℕ) (a : L) → k ≢ l → os.owner a ≡ some l → os.owner (os.release k a) ≡ some l
  released k l a ne e = os.release_other k a (λ q. let same : k ≡ l = cc in ne same) ∙ e

  Move-others :
      {k : ℕ} {s s' : Shared L} {p p' : Phase}
      → Move os k s p s' p'
      → (l : ℕ) → k ≢ l
      → os.owner s.lock ≡ some l
      → os.owner s'.lock ≡ some l
  Move-others cannot_lock l ne e = e
  Move-others {k} {s} (win a t) l ne e = absurd (ne (sym (os.take_held k l s.lock a e t)))
  Move-others announce l ne e = e
  Move-others cannot_announce l ne e = e
  Move-others elect l ne e = e
  Move-others fail l ne e = e
  Move-others resign l ne e = e
  Move-others {k} {s} unlock l ne e = released k l s.lock ne e
  Move-others cannot_unlock l ne e = e
  Move-others stand_again l ne e = e
  Move-others {k} {s} (exit p n) l ne e = released k l s.lock ne e

  Move-told :
      {k : ℕ} {s s' : Shared L} {p p' : Phase}
      → Move os k s p s' p'
      → s.elected k ≡ is_elected p
      → s'.elected k ≡ is_elected p'
  Move-told cannot_lock e = e
  Move-told (win l t) e = e
  Move-told announce e = e
  Move-told cannot_announce e = e
  Move-told {k} {s} elect e = update_self s.elected k true
  Move-told fail e = e
  Move-told {k} {s} resign e = update_self s.elected k false
  Move-told unlock e = e
  Move-told cannot_unlock e = e
  Move-told stand_again e = e
  Move-told {k} {s} (exit p n) e = update_self s.elected k false

  Move-told_others :
      {k : ℕ} {s s' : Shared L} {p p' : Phase}
      → Move os k s p s' p'
      → (l : ℕ) → k ≢ l
      → s'.elected l ≡ s.elected l
  Move-told_others cannot_lock l ne = refl
  Move-told_others (win a t) l ne = refl
  Move-told_others announce l ne = refl
  Move-told_others cannot_announce l ne = refl
  Move-told_others {k} {s} elect l ne = update_ne s.elected k true l ne
  Move-told_others fail l ne = refl
  Move-told_others {k} {s} resign l ne = update_ne s.elected k false l ne
  Move-told_others unlock l ne = refl
  Move-told_others cannot_unlock l ne = refl
  Move-told_others stand_again l ne = refl
  Move-told_others {k} {s} (exit p n) l ne = update_ne s.elected k false l ne

  Step-Inv : {x y : System L} → Step os x y → Inv x → Inv y
  Step-Inv {x} (pick k {s} {p} mv) h = record {
    own =
        update_all x.phases k p (λ l q. holds q ≡ true → os.owner s.lock ≡ some l)
          (Move-own mv (h.own k)) (λ l ne e. Move-others mv l ne (h.own l e));
    told =
        update_all x.phases k p (λ l q. s.elected l ≡ is_elected q) (Move-told mv (h.told k))
          (λ l ne. Move-told_others mv l ne ∙ h.told l);
  }

  start-Inv : (left : Option ℕ) → Inv (start os left)
  start-Inv left = record { own = λ k e. absurd (cc); told = λ k. refl }

  -- Whenever a process has won the lock and neither dropped it nor ended, the lock is its own, and its
  -- `ELECTED` is set exactly while it serves or until it has resigned.
  pub Reach-Inv : (left : Option ℕ) {x : System L} → Reach os (start os left) x → Inv x
  Reach-Inv left here = start-Inv left
  Reach-Inv left (later r st) = Step-Inv st (Reach-Inv left r)
