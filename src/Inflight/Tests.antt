-- ===== src/Inflight/Tests.antt =====
-- Two callers of web/upstream_inflight.go that ask for one key.
use effect_golang_web.Common.{ℕ, ◌≡◌, refl, none, false, Text, codes}
use effect_golang_web.Inflight.{
  Reads, Reaches, ask, stay, then_step, claimed, abandon_read, reading_of, new_in_flight_reads,
  join_or_start,
}
use effect_golang_web.Inflight.Sharing.{IsSound, new_in_flight_reads-IsSound}
use effect_golang_web.Inflight.Waiting.{Step-IsSound, one_reading_lem}
use effect_golang_web.Inflight.Abandoning.{abandoned_lem}

abbrev wanted : Text
wanted = codes "GET /rates"

abbrev first_asked : Reads ℕ
first_asked = (join_or_start new_in_flight_reads wanted).1

abbrev both_asked : Reads ℕ
both_asked = (join_or_start first_asked wanted).1

second_joins : (join_or_start first_asked wanted).0 ≡ (record { answer = 0; leader = false })
unfolding join_or_start new_in_flight_reads
second_joins = refl

reached : Reaches new_in_flight_reads both_asked
reached = then_step (then_step stay (ask wanted)) (ask wanted)

read_by_first : both_asked.readings 0 ≡ reading_of wanted claimed
unfolding join_or_start new_in_flight_reads
read_by_first = refl

first_asked-IsSound : IsSound first_asked
first_asked-IsSound =
    Step-IsSound new_in_flight_reads first_asked (ask wanted) new_in_flight_reads-IsSound

Step-IsSound_example : IsSound both_asked
Step-IsSound_example = Step-IsSound first_asked both_asked (ask wanted) first_asked-IsSound

one_reading_lem_example : ◌≡◌ {A = ℕ} 0 0
one_reading_lem_example =
    one_reading_lem both_asked reached wanted 0 0 claimed claimed read_by_first refl read_by_first
      refl

abbrev left_by_first : Reads ℕ
left_by_first = abandon_read first_asked 0 wanted

claimed_by_first : first_asked.readings 0 ≡ reading_of wanted claimed
unfolding join_or_start new_in_flight_reads
claimed_by_first = refl

unanswered : first_asked.answers 0 ≡ none
unfolding join_or_start new_in_flight_reads
unanswered = refl

abandoned_lem_example :
    ((join_or_start left_by_first wanted).1.answers 0 ≡ none)
    × ((join_or_start (join_or_start left_by_first wanted).1 wanted).0
        ≡ record { answer = 0; leader = false })
abandoned_lem_example =
    abandoned_lem first_asked (join_or_start left_by_first wanted).1 0 wanted first_asked-IsSound
      claimed_by_first unanswered (then_step stay (ask wanted))
