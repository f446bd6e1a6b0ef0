-- ===== src/Music/ProductFlow/Examples.antt =====
-- A flow from a range to a running pack and another take (src/music_product_flow.h).
use mathlib.Core.List.{List, [], ◌∷◌}
use ayther_runtime.Music.ProductFlow.{
  new, Call, selects, authors, previews, bakes, starts, navigates,
}
use ayther_runtime.Music.ProductFlow.Stages.{run, Inv, flow-Inv}

abbrev calls : List Call
calls =
    selects (record { begin = 0; end = 44100 })
    ∷ authors "theme"
    ∷ previews
    ∷ bakes "r1"
    ∷ starts
    ∷ navigates "take-2"
    ∷ []

flow-Inv_example : Inv (run new calls)
flow-Inv_example = flow-Inv calls
