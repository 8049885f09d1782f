-- ===== src/Elect/Processes/Takeover.antt =====
-- When the router's process ends, a process that stands takes over, with no step of any other.
use zapd.Prelude.{
  ℕ, ◌≡◌, ◌≢◌, sym, ◌∙◌, subst, true, false, Option, some, inl, inr, Option-cases, update,
  update_self, update_ne,
}
use zapd.Io.{ok}
use zapd.Elect.{holder}
use zapd.Elect.Processes.{
  Lock, Shared, Phase, standing, granted, announced, serving, gone, Move, System, pick, start,
  Reach, later, win, announce, elect, exit,
}
use zapd.Elect.Processes.Holder.{Asks, holder_elected}

module _ {L : Type 0} (os : Lock L) where
  -- Steps of one process alone.
  pub data Alone (k : ℕ) (x : System L) : System L → Type 0 where
    stop : Alone k x x
    go :
        {y : System L} {s : Shared L} {p : Phase}
        → Alone k x y
        → Move os k y.shared (y.phases k) s p
        → Alone k x (record { shared = s; phases = update y.phases k p })

  pub Alone-Reach : {k : ℕ} {x y z : System L} → Reach os x y → Alone k y z → Reach os x z
  Alone-Reach r stop = r
  Alone-Reach r (go a mv) = later (Alone-Reach r a) (pick _ mv)

  -- The process ends.
  abbrev pub exited : ℕ → System L → System L
  exited j x = record {
    shared = record x.shared {
      lock = os.release j x.shared.lock;
      elected = update x.shared.elected j false;
    };
    phases = update x.phases j gone;
  }

  go_from :
      {k : ℕ} {x y : System L} {s : Shared L} {p q : Phase}
      → Alone k x y
      → y.phases k ≡ q
      → Move os k y.shared q s p
      → Alone k x (record { shared = s; phases = update y.phases k p })
  go_from {k} {x} {y} {s} {p} a e mv = go a (subst (λ q. Move os k y.shared q s p) (sym e) mv)

  module _ (j k : ℕ) (ne : j ≢ k) (x : System L) (e : x.phases k ≡ standing) (l : L) where
    abbrev won : System L
    won = record {
      shared = record (exited j x).shared { lock = l };
      phases = update (exited j x).phases k granted;
    }

    abbrev told : System L
    told = record {
      shared = record won.shared { recorded = some k };
      phases = update won.phases k announced;
    }

    abbrev elected : System L
    elected = record {
      shared = record told.shared { elected = update told.shared.elected k true };
      phases = update told.phases k serving;
    }

    elected-Alone : os.take k (os.release j x.shared.lock) ≡ some l → Alone k (exited j x) elected
    elected-Alone t =
        go_from
          (go_from (go_from stop (update_ne x.phases j gone k ne ∙ e) (win l t))
            (update_self (exited j x).phases k granted) announce)
          (update_self won.phases k announced) elect

  module _ (left : Option ℕ) (a : Asks os) (f : ℕ) {x : System L}
      (r : Reach os (start os left) x) where
    -- Where the process that holds the lock ends, another that waits for it becomes the router
    -- by steps of its own alone, and then `holder` names it in every process.
    pub takeover :
        (j k : ℕ)
        → j ≢ k
        → x.phases j ≢ gone
        → os.owner x.shared.lock ≡ some j
        → x.phases k ≡ standing
        → (y : System L) × Alone k (exited j x) y
          × (y.shared.elected k ≡ true)
          × ((i : ℕ) → holder (y.shared.elected i) i (λ f. a.ask i y.shared.lock) (ok f) ≡ some k)
    takeover j k ne live own e = elim (Option-cases (os.take k (os.release j x.shared.lock))) [
      | inl n ↦ absurd (os.take_free k _ (os.release_own j x.shared.lock own) n)
      | inr (l, t) ↦
          let run = elected-Alone j k ne x e l t in
          let end = elected j k ne x e l in
          let chosen : end.shared.elected k ≡ true =
            update_self (told j k ne x e l).shared.elected k true in
          let reach = Alone-Reach (later r (pick j (exit (x.phases j) live))) run in
          (end, run, chosen, λ i. holder_elected os left reach a f k i chosen)
    ]
