-- ===== src/Tests/Sharing.antt =====
-- The theorems on sharing at concrete inputs.
use obligator.Base.{◌≡◌, String, some, List, [], ◌∷◌}
use obligator.Qr.{selected}
use obligator.Qr.Selection.{by_id-selected}
use obligator.Utils.LoginCookie.Merge.{by_id}
use obligator.Tests.Data.{ann, bob}

abbrev form : List (String × List String)
form = ("checkbox_ann@example.com", "on" ∷ []) ∷ ("checkbox_eve@example.com", "on" ∷ []) ∷ []

by_id-selected_example : by_id "ann@example.com" (selected form (bob ∷ ann ∷ [])) ≡ some ann
by_id-selected_example = by_id-selected "ann@example.com" form (bob ∷ ann ∷ [])
