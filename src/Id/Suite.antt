-- ===== src/Id/Suite.antt =====
-- The unit tests of src/id.rs: each as what it asserts, and that it passes.
use zapd.Prelude.{◌≡◌, refl, none, some, [], ◌∷◌, All}
use zapd.Text.{lit}
use zapd.Text.Split.{split, contains}
use zapd.Text.Equal.{str_eq}
use zapd.Id.{stamp, label, name_ok}

abbrev StampsTheRouterHost : Type 0
StampsTheRouterHost =
    (stamp (lit "browser/chromium-3fa2") (lit "dgx") ≡ some (lit "browser/dgx/chromium-3fa2"))
    × (stamp (lit "browser/dgx/chromium-3fa2") (lit "dgx") ≡ some (lit "browser/dgx/chromium-3fa2"))
    × (stamp (lit "agent/spark/hanzo-42") (lit "dgx") ≡ some (lit "agent/dgx/hanzo-42"))

stamps_the_router_host : StampsTheRouterHost
unfolding stamp name_ok split contains str_eq
stamps_the_router_host = (refl, refl, refl)

abbrev RefusesWhatIsNotAnId : Type 0
RefusesWhatIsNotAnId =
    All (λ bad. stamp bad (lit "dgx") ≡ none)
      (lit ""
        ∷ lit "browser"
        ∷ lit "toaster/x"
        ∷ lit "browser/"
        ∷ lit "browser/-x"
        ∷ lit "browser/UPPER"
        ∷ lit "browser/a_b"
        ∷ lit "browser/seventeen-chars-xx"
        ∷ lit "a/b/c/d"
        ∷ lit "browser:chrome/default"
        ∷ [])

refuses_what_is_not_an_id : RefusesWhatIsNotAnId
unfolding stamp name_ok split contains str_eq
refuses_what_is_not_an_id =
    (refl, (refl, (refl, (refl, (refl, (refl, (refl, (refl, (refl, (refl, tt))))))))))

abbrev HostLabels : Type 0
HostLabels =
    (label (lit "DGX.local") ≡ lit "dgx")
    × (label (lit "my_box.lan") ≡ lit "my-box")
    × (label (lit "a-very-long-hostname-indeed") ≡ lit "a-very-long-host")
    × (label (lit "") ≡ lit "local")

host_labels : HostLabels
unfolding label split
host_labels = (refl, refl, refl, refl)
