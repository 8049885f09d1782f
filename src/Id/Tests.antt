-- ===== src/Id/Tests.antt =====
-- The theorem on src/id.rs at the id of a browser.
use zapd.Prelude.{◌≡◌, ◌↔◌, some}
use zapd.Text.{lit}
use zapd.Id.{stamp}
use zapd.Id.Stamp.{Names, stamp_iff}

stamp_iff_example :
    (stamp (lit "browser/b") (lit "dgx") ≡ some (lit "browser/dgx/b"))
    ↔ Names (lit "browser/b") (lit "dgx") (lit "browser/dgx/b")
stamp_iff_example = stamp_iff (lit "browser/b") (lit "dgx") (lit "browser/dgx/b")
