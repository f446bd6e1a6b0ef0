-- ===== src/AudioQa/Registry/Requests.antt =====
-- A request is registered once (tools/audio_qa/request_registry.cpp).
use Prim.Native.String.{String}
use text.Mathlib.TextEquality.{eq_iff}
use mathlib.Core.Path.{subst}
use ayther_runtime.Prelude.{
  suc, ◌≤◌, ◌≡◌, ◌≢◌, ◌⊎◌, ◌<◌, if◌then◌else◌, refl, sym, ap, Bool, true, false, none, List, [],
  ◌∷◌, ◌++◌, arith, length, length-append, All, All-append, inl, inr,
}
use ayther_runtime.AudioQa.Lifecycle.{Run}
use ayther_runtime.AudioQa.Registry.{
  Request, Admission, Entry, find, is_run, register_found, register_request, update_run,
}

pub data Call : Type 0 where
  registers : Request → Run → Call
  updates : Run → Call

pub step : List Entry → Call → List Entry
step es (registers request run) = (register_request es request run).0
step es (updates run) = (update_run es run).0

pub run : List Entry → List Call → List Entry
run es [] = es
run es (c ∷ cs) = run (step es c) cs

abbrev pub ids : List Entry → List String
ids [] = []
ids (e ∷ es) = e.request.request_id ∷ ids es

-- No text is in a list twice.
abbrev pub Distinct : List String → Type 0
Distinct [] = Unit {0}
Distinct (x ∷ xs) = All (λ y. y ≢ x) xs × Distinct xs

not_found : (es : List Entry) (id : String) → find es id ≡ none → All (λ x. x ≢ id) (ids es)
unfolding find
not_found [] id h = tt
not_found (e ∷ es) id h = (
  λ p. let t = (eq_iff e.request.request_id id).1 p in ground arith,
  not_found es id (ground arith),
)

Distinct-append :
    (xs : List String) (id : String)
    → Distinct xs
    → All (λ x. x ≢ id) xs
    → Distinct (xs ++ (id ∷ []))
Distinct-append [] id d a = (tt, tt)
Distinct-append (x ∷ xs) id d a =
    (All-append (λ y. y ≢ x) xs (id ∷ []) d.0 (λ p. a.0 (sym p), tt), Distinct-append xs id d.1 a.1)

ids-append :
    (es : List Entry) (e : Entry) → ids (es ++ (e ∷ [])) ≡ ids es ++ (e.request.request_id ∷ [])
ids-append [] e = refl
ids-append (x ∷ es) e = ap (λ xs. x.request.request_id ∷ xs) (ids-append es e)

-- Either branch of an update keeps the requests.
abbrev chosen : Bool → Entry → Entry → List Entry → List Entry × Bool → List Entry × Bool
chosen b e f es rest = if b then (f ∷ es, true) else (e ∷ rest.0, rest.1)

either_keeps :
    (b : Bool) (e f : Entry) (es : List Entry) (rest : List Entry × Bool)
    → f.request ≡ e.request
    → ids rest.0 ≡ ids es
    → ids (chosen b e f es rest).0 ≡ ids (e ∷ es)
either_keeps true e f es rest q k = ap (λ (x : Request). x.request_id ∷ ids es) q
either_keeps false e f es rest q k = ap (λ xs. e.request.request_id ∷ xs) k

ids-update_run : (es : List Entry) (r : Run) → ids (update_run es r).0 ≡ ids es
unfolding update_run
ids-update_run [] r = refl
ids-update_run (e ∷ es) r =
    either_keeps (is_run r e) e (record e { run = r }) es (update_run es r) refl
      (ids-update_run es r)

length-ids : (es : List Entry) → length (ids es) ≡ length es
length-ids [] = refl
length-ids (e ∷ es) = ap suc (length-ids es)

-- The ids of the requests that are registered: no more than the capacity, and none twice.
record Sound (xs : List String) : Type 0 where
  few : length xs ≤ 1024
  distinct : Distinct xs

-- What a registration does to the ids: nothing, or an id that was not there comes last.
register_cases :
    (es : List Entry) (request : Request) (r : Run)
    → ((register_request es request r).0 ≡ es)
      ⊎ ((find es request.request_id ≡ none)
          × (length es < 1024)
          × (ids (register_request es request r).0 ≡ ids es ++ (request.request_id ∷ [])))
unfolding register_request register_found
register_cases es request r =
    let a =
      ids-append es
        (record { request = record request { admission = Admission.accepted }; run = r }) in
    ground arith

step-Sound : (es : List Entry) (c : Call) → Sound (ids es) → Sound (ids (step es c))
unfolding step
step-Sound es (updates r) v = subst Sound (sym (ids-update_run es r)) v
step-Sound es (registers request r) v = elim (register_cases es request r) [
  | inl k ↦ subst Sound (sym (ap ids k)) v
  | inr k ↦ subst Sound (sym k.2) (record {
    few = omega (arith, length-append (ids es) (request.request_id ∷ []), length-ids es, k.1);
    distinct =
        Distinct-append (ids es) request.request_id v.distinct
          (not_found es request.request_id k.0);
  })
]

run_from-Sound : (es : List Entry) (cs : List Call) → Sound (ids es) → Sound (ids (run es cs))
unfolding run
run_from-Sound es [] v = v
run_from-Sound es (c ∷ cs) v = run_from-Sound (step es c) cs (step-Sound es c v)

-- After any registrations and updates, no request is registered twice and no more than 1024 are.
pub registered_once : (cs : List Call) → Distinct (ids (run [] cs)) × (length (run [] cs) ≤ 1024)
registered_once cs =
    let v = run_from-Sound [] cs (record { few = omega arith; distinct = tt }) in
    (v.distinct, omega (arith, v.few, length-ids (run [] cs)))
