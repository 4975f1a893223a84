-- ===== src/Samples/Plans.antt =====
-- Runs of the closure of src/plan.c and of the visibility test of src/source.c.
use qstar.Prelude.{true, false, ℕ, ◌≡◌, ◌<◌, ◌↔◌, refl, [], ◌∷◌, none, some, codes, length}
use mathlib.Core.List.{Memᴰ}
use qstar.Graph.Lookup.{target_index}
use qstar.Plan.{PlanError, cycle, unknown_target, finished, done, failed, build_closure}
use qstar.Plan.Paths.{here, step, one, more, Ordered}
use qstar.Plan.Spec.{Ensures, Explained}
use qstar.Plan.Closure.{IsClosure, build_closure_label, build_closure_all, build_closure-Chain}
use qstar.Graph.Target.{Target}
use qstar.Visibility.{target_visible_to_label}
use qstar.Visibility.Rule.{IsVisible, target_visible_to_label-IsVisible}
use qstar.Samples.{bare_target, layered, tangled}

layered_app :
    build_closure layered (some (codes "//:app"))
    ≡ done (record { state = finished ∷ finished ∷ finished ∷ []; order = 2 ∷ 1 ∷ 0 ∷ [] })
unfolding build_closure
layered_app = refl

layered_all :
    build_closure layered none
    ≡ done (record { state = finished ∷ finished ∷ finished ∷ []; order = 2 ∷ 1 ∷ 0 ∷ [] })
unfolding build_closure
layered_all = refl

tangled_app : build_closure tangled (some (codes "//:app")) ≡ failed (cycle (codes "//:a"))
unfolding build_closure
tangled_app = refl

lost : build_closure layered (some (codes "//:no")) ≡ failed (unknown_target (codes "//:no"))
unfolding build_closure
lost = refl

build_closure_label_example :
    Ensures
      (λ p.
        (r : ℕ) × (target_index layered (codes "//:app") ≡ some r)
        × IsClosure layered (r ∷ []) p.order)
      (Explained layered)
      (build_closure layered (some (codes "//:app")))
build_closure_label_example = build_closure_label layered b'/' (codes "/:app")

build_closure_all_example :
    Ensures
      (λ p. Ordered layered [] p.order × ((i : ℕ) → Memᴰ i p.order ↔ (i < length layered.targets)))
      (Explained layered)
      (build_closure layered none)
build_closure_all_example = build_closure_all layered

build_closure-Chain_example :
    (e : PlanError) × (build_closure tangled (some (codes "//:app")) ≡ failed e)
unfolding target_index
build_closure-Chain_example =
    build_closure-Chain tangled b'/' (codes "/:app") 0 1 refl
      (step here
        (record { target = _; at_i = refl; label = _; named = Memᴰ.head refl; at_j = refl }))
      (more
        (one (record { target = _; at_i = refl; label = _; named = Memᴰ.head refl; at_j = refl }))
        (record { target = _; at_i = refl; label = _; named = Memᴰ.head refl; at_j = refl }))

-- A library that the package `app` may use.
abbrev open_to_app : Target
open_to_app = record (bare_target (codes "//lib:lib")) { visibility = codes "//app:..." ∷ [] }

seen : target_visible_to_label open_to_app (codes "//app:main") ≡ true
unfolding target_visible_to_label
seen = refl

unseen : target_visible_to_label open_to_app (codes "//tool:main") ≡ false
unfolding target_visible_to_label
unseen = refl

target_visible_to_label-IsVisible_example :
    (target_visible_to_label open_to_app (codes "//app:main") ≡ true)
    ↔ IsVisible open_to_app (codes "//app:main")
target_visible_to_label-IsVisible_example =
    target_visible_to_label-IsVisible open_to_app (codes "//app:main")
