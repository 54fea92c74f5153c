-- ===== src/Poller/Report/Contract.antt =====
-- What the cloud can rely on in the poller's messages about devices.
use itdashboard.Prelude.{
  ℕ, suc, ◌≤◌, ◌≡◌, ◌↔◌, refl, String, inl, inr, none, some, List, [], ◌∷◌, length, take,
  length-take, arith, Option-cases,
}
use itdashboard.Status.{healthy}
use itdashboard.Poller.Json.{Json, Fields, Python}
use itdashboard.Poller.Mapper.{Limits, Assessment, assess_device}
use itdashboard.Poller.Mapper.Assessed.{assess_device_lem}
use itdashboard.Poller.Platform.{PlatformLimits, assess_platform}
use itdashboard.Poller.Platform.Assessed.{assess_platform-Sane}
use itdashboard.Poller.Identity.{Identity, device_id_for}
use itdashboard.Poller.Report.{
  Kind, periodic, transition, Report, top_events_of, events_if, report_of, device_message,
  platform_events, platform_report, platform_message,
}
use itdashboard.Poller.Report.Events.{
  size, size-left, KeepsSeverities, IsEvents, top_events_of-IsEvents, platform_events-IsEvents,
}

take_nil : {A : Type 0} (n : ℕ) (l : List A) → (l ≡ []) ↔ (take (suc n) l ≡ [])
take_nil n [] = ground arith
take_nil n (x ∷ l) = ground arith

module _ {F : Type 0} (lower : String → String) where
  pub record MeetsContract (kind : Kind) (m : Report F) : Type 0 where
    pub score : m.health.score ≤ 100
    pub reasons : length m.reasons ≤ 10
    pub calm : (m.health.status ≡ healthy) ↔ (m.reasons ≡ [])
    pub site : size m.site ≤ 120
    pub events : IsEvents lower kind m.top_events

  module _ (py : Python F) (keep : KeepsSeverities lower) (cfg : Identity F) where
    device_events :
        (kind : Kind) (now : F) (device : Fields F) (reasons : List String)
        → IsEvents lower kind (events_if kind (top_events_of py now device reasons))
    device_events periodic now device reasons = refl
    device_events transition now device reasons =
        top_events_of-IsEvents lower py keep now device reasons

    report_of-MeetsContract :
        (limits : Limits F) (device : Fields F) (domain site : Json F) (kind : Kind) (now : F)
        (dev_id : String)
        → MeetsContract kind (report_of py cfg limits device domain site kind now dev_id)
    unfolding report_of
    report_of-MeetsContract limits device domain site kind now dev_id =
        let a = assess_device py limits now device in
        let fair = (assess_device_lem py limits now device).0 in
        let (to, from) = take_nil 9 a.reasons in
        record {
          score = fair.bounded;
          reasons = let e = length-take 10 a.reasons in omega (arith, e);
          calm = ((λ h. to (fair.calm.0 h)), (λ h. fair.calm.1 (from h)));
          site = size-left 120 _;
          events = device_events kind now device a.reasons;
        }

    platform_events_if :
        (kind : Kind) (now : F) (problems : List (Fields F)) (reasons : List String)
        → IsEvents lower kind (events_if kind (platform_events py now problems reasons))
    platform_events_if periodic now problems reasons = refl
    platform_events_if transition now problems reasons =
        platform_events-IsEvents lower py keep now problems reasons

    platform_report-MeetsContract :
        (limits : PlatformLimits F) (response : Fields F) (problems : List (Fields F)) (kind : Kind)
        (now : F) (a : Assessment)
        → assess_platform py limits now response (length problems) ≡ some a
        → MeetsContract kind (platform_report py cfg response problems kind now a)
    unfolding platform_report
    platform_report-MeetsContract limits response problems kind now a h =
        let (score, calm) = assess_platform-Sane py limits response now (length problems) a h in
        let (to, from) = take_nil 9 a.reasons in
        record {
          score = score;
          reasons = let e = length-take 10 a.reasons in omega (arith, e);
          calm = ((λ h. to (calm.0 h)), (λ h. calm.1 (from h)));
          site = size-left 120 _;
          events = platform_events_if kind now problems a.reasons;
        }

    -- A device has no message exactly if it has no id, else its message carries this id. If
    -- str.lower leaves the four severities alone, every message about a device or the platform has
    -- a score of at most 100, at most ten reasons, none exactly if it is healthy, and a site of at
    -- most 120 characters. A sample has no top events, and a transition one to five, each of at
    -- most 200 characters and of a severity that the cloud takes for crit, err, warn or info.
    pub messages-MeetContract :
        (kind : Kind) (now : F)
        → ((limits : Limits F) (device : Fields F) (domain site : Json F)
            → ((device_message py cfg limits device domain site kind now ≡ none)
                ↔ (device_id_for py cfg device ≡ none))
              × ((m : Report F)
                  → device_message py cfg limits device domain site kind now ≡ some m
                  → (device_id_for py cfg device ≡ some m.device_id) × MeetsContract kind m))
          × ((limits : PlatformLimits F) (response : Fields F) (problems : List (Fields F))
                (m : Report F)
              → platform_message py cfg limits response problems kind now ≡ some m
              → MeetsContract kind m)
    unfolding device_message platform_message
    messages-MeetContract kind now = (
      λ limits device domain site. elim (Option-cases (device_id_for py cfg device)) [
        | inl e ↦ rw e (ground arith, λ m h. ground (arith, h))
        | inr (dev_id, e) ↦ rw e (
          ground arith,
          λ m h.
              let same : report_of py cfg limits device domain site kind now dev_id ≡ m = cc h in
              (
                cc same,
                rw (← same) (report_of-MeetsContract limits device domain site kind now dev_id),
              ),
        )
      ],
      λ limits response problems m h.
          elim (Option-cases (assess_platform py limits now response (length problems))) [
            | inl e ↦ let never : ⊥ = ground (arith, rw e at h) in absurd never
            | inr (a, e) ↦
                let k : some (platform_report py cfg response problems kind now a) ≡ some m =
                  rw e at h in
                let same : platform_report py cfg response problems kind now a ≡ m = cc k in
                rw (← same) (platform_report-MeetsContract limits response problems kind now a e)
          ],
    )
