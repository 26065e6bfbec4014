-- ===== src/ExecutionCore/Deliveries/Answers.antt =====
-- The verdicts that `guard` of execution_core.rs answers with.
use clinx.Prelude.{
  String, Bool, true, false, ◌≢◌, inl, inr, List, [], ◌∷◌, arith, Option-cases, if◌then◌else◌,
}
use clinx.Json.{Json}
use clinx.Json.Access.{◌!◌, as_array}
use clinx.External.{External}
use clinx.ExecutionCore.{Verdict, reject, duplicate, ◌>>◌, verdict}
use clinx.ExecutionCore.Guards.{
  guard_children_resolved, guard_admission, guard_binding, guard_stopped, guard_event_bundle,
  guard_provider, guard_fence, guard_grant, guard_expired, guard_incarnation, guard_new_incarnation,
  guard_not_dispatched, guard_retry,
}
use clinx.ExecutionCore.Deliveries.{
  check_row, check_rows, guard_deliveries, check_result, guard_finalizer, guard,
}

reject-ne-duplicate : reject ≢ duplicate
reject-ne-duplicate h = ground arith

verdict-ne-duplicate : (b : Bool) → verdict b ≢ duplicate
verdict-ne-duplicate b h = ground arith

>>-ne-duplicate : (u v : Verdict) → u ≢ duplicate → v ≢ duplicate → (u >> v) ≢ duplicate
>>-ne-duplicate u v p q h = ground arith

if-ne-duplicate :
    (b : Bool) (u v : Verdict) → u ≢ duplicate → v ≢ duplicate → (if b then u else v) ≢ duplicate
if-ne-duplicate b u v p q h = ground arith

module _ (w : External) where
  guard_children_resolved-ne-duplicate : (f : Json) → guard_children_resolved f ≢ duplicate
  unfolding guard_children_resolved
  guard_children_resolved-ne-duplicate f h = ground arith

  guard_admission-ne-duplicate : (f : Json) → guard_admission f ≢ duplicate
  unfolding guard_admission
  guard_admission-ne-duplicate f h = ground arith

  guard_binding-ne-duplicate : (f : Json) → guard_binding f ≢ duplicate
  unfolding guard_binding
  guard_binding-ne-duplicate f h = ground arith

  guard_stopped-ne-duplicate : (f : Json) → guard_stopped f ≢ duplicate
  unfolding guard_stopped
  guard_stopped-ne-duplicate f h = ground arith

  guard_event_bundle-ne-duplicate : (f : Json) → guard_event_bundle f ≢ duplicate
  unfolding guard_event_bundle
  guard_event_bundle-ne-duplicate f h = ground arith

  guard_fence-ne-duplicate : (f : Json) → guard_fence w f ≢ duplicate
  unfolding guard_fence
  guard_fence-ne-duplicate f h = ground arith

  guard_grant-ne-duplicate : (f : Json) → guard_grant w f ≢ duplicate
  unfolding guard_grant
  guard_grant-ne-duplicate f h = ground (arith, guard_fence-ne-duplicate f)

  guard_expired-ne-duplicate : (f : Json) → guard_expired w f ≢ duplicate
  unfolding guard_expired
  guard_expired-ne-duplicate f h = ground arith

  guard_incarnation-ne-duplicate : (f : Json) → guard_incarnation w f ≢ duplicate
  unfolding guard_incarnation
  guard_incarnation-ne-duplicate f h = ground arith

  guard_new_incarnation-ne-duplicate : (f : Json) → guard_new_incarnation w f ≢ duplicate
  unfolding guard_new_incarnation
  guard_new_incarnation-ne-duplicate f h = ground arith

  guard_not_dispatched-ne-duplicate : (f : Json) → guard_not_dispatched w f ≢ duplicate
  unfolding guard_not_dispatched
  guard_not_dispatched-ne-duplicate f h = ground arith

  guard_provider-ne-duplicate : (b : Bool) (f : Json) → guard_provider w b f ≢ duplicate
  unfolding guard_provider
  guard_provider-ne-duplicate b f h = ground arith

  guard_retry-ne-duplicate : (f : Json) → guard_retry w f ≢ duplicate
  unfolding guard_retry
  guard_retry-ne-duplicate f =
      >>-ne-duplicate _ _
        (>>-ne-duplicate _ _ (guard_not_dispatched-ne-duplicate f) (guard_stopped-ne-duplicate f))
        (verdict-ne-duplicate _)

  check_row-ne-duplicate :
      (f t : Json) (seen : List String) (r : Json) → check_row w f t seen r ≢ duplicate
  unfolding check_row
  check_row-ne-duplicate f t seen r h = ground arith

  check_rows-ne-duplicate :
      (f t : Json) (seen : List String) (rs : List Json) → check_rows w f t seen rs ≢ duplicate
  unfolding check_rows
  check_rows-ne-duplicate f t seen [] = λ h. ground arith
  check_rows-ne-duplicate f t seen (r ∷ rs) =
      >>-ne-duplicate _ _ (check_row-ne-duplicate f t seen r)
        (check_rows-ne-duplicate f t (w.print (r ! "call_id") ∷ seen) rs)

  guard_deliveries-ne-duplicate : (f t : Json) → guard_deliveries w f t ≢ duplicate
  unfolding guard_deliveries
  guard_deliveries-ne-duplicate f t h = elim (Option-cases (as_array (f ! "deliveries"))) [
    | inl e ↦ ground arith
    | inr (rows, e) ↦ ground (arith, check_rows-ne-duplicate f t [] rows)
  ]

  check_result-ne-duplicate : (b : Bool) (f t : Json) → check_result w b f t ≢ duplicate
  unfolding check_result
  check_result-ne-duplicate b f t h = ground (arith, guard_stopped-ne-duplicate f)

  guard_finalizer-ne-duplicate : (b : Bool) (f t : Json) → guard_finalizer w b f t ≢ duplicate
  unfolding guard_finalizer
  guard_finalizer-ne-duplicate b f t h = ground (
    arith,
    guard_not_dispatched-ne-duplicate f,
    guard_provider-ne-duplicate true f,
    guard_deliveries-ne-duplicate f t,
    check_result-ne-duplicate b f t,
  )

  -- No guard answers "DUPLICATE", whatever its name and its evidence.
  pub guard-ne-duplicate : (name : String) (f t : Json) → guard w name f t ≢ duplicate
  unfolding guard
  guard-ne-duplicate name f t = if-ne-duplicate _ _ _ (guard_children_resolved-ne-duplicate f) (
      if-ne-duplicate _ _ _ (guard_admission-ne-duplicate f) (
        if-ne-duplicate _ _ _ (guard_binding-ne-duplicate f) (
          if-ne-duplicate _ _ _ (guard_provider-ne-duplicate false f) (
            if-ne-duplicate _ _ _ (guard_provider-ne-duplicate true f) (
              if-ne-duplicate _ _ _ (guard_fence-ne-duplicate f) (
                if-ne-duplicate _ _ _ (guard_grant-ne-duplicate f) (
                  if-ne-duplicate _ _ _ (guard_expired-ne-duplicate f) (
                    if-ne-duplicate _ _ _ (guard_incarnation-ne-duplicate f) (
                      if-ne-duplicate _ _ _ (guard_new_incarnation-ne-duplicate f) (
                        if-ne-duplicate _ _ _ (guard_stopped-ne-duplicate f) (
                          if-ne-duplicate _ _ _ (guard_not_dispatched-ne-duplicate f) (
                            if-ne-duplicate _ _ _ (guard_retry-ne-duplicate f) (
                              if-ne-duplicate _ _ _ (guard_deliveries-ne-duplicate f t) (
                                if-ne-duplicate _ _ _ (guard_finalizer-ne-duplicate false f t) (
                                  if-ne-duplicate _ _ _ (guard_finalizer-ne-duplicate true f t) (
                                    if-ne-duplicate _ _ _ (guard_event_bundle-ne-duplicate f)
                                      (reject-ne-duplicate)))))))))))))))))
