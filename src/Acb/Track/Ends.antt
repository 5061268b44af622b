-- ===== src/Acb/Track/Ends.antt =====
-- The loop over the commands of an event ends: each round takes three bytes at least.
use moe_asset_updater_client.Base.{
  ℕ, zero, suc, ◌+◌, ◌*◌, ◌≤◌, ◌<◌, ◌≡◌, refl, ◌||◌, Option, some, List, [], ◌∷◌, arith, ltb, ◌==◌,
  Bytes, codes, length, length-drop, Bool-cases, inl, inr,
}
use moe_asset_updater_client.Acb.Utf.{Row}
use moe_asset_updater_client.Acb.Fields.{get_bytes_field}
use moe_asset_updater_client.Acb.Track.{
  Track, Banks, Round, stop, next, process_command, with_track, after_round, commands_loop,
  or_empty, extract_tracks_from_event,
}

-- What is left after a round is shorter than before.
abbrev Shorter : Bytes → Round → Type 0
Shorter command stop = Unit
Shorter command (next t rest) = length rest < length command

process_command-Shorter :
    (command : Bytes) (b : Banks) (existing current : List Track)
    → Shorter command (process_command command b existing current)
unfolding process_command
process_command-Shorter [] b existing current = tt
process_command-Shorter (c ∷ []) b existing current = tt
process_command-Shorter (c ∷ d ∷ []) b existing current = tt
process_command-Shorter (c ∷ d ∷ len ∷ rest) b existing current =
    elim (Bool-cases (ltb (length rest) len || (c * 256 + d == 0))) [
      | inl e ↦ rw e tt
      | inr e ↦ rw e (omega (arith, length-drop len rest))
    ]

abbrev IsSome : {A : Type 0} → Option A → Type 0
IsSome {A} o = (a : A) × (o ≡ some a)

after_round-IsSome :
    (command : Bytes) (again : List Track → Bytes → Option (List Track)) (current : List Track)
    (round : Round)
    → Shorter command round
    → ((ts : List Track) (rest : Bytes) → length rest < length command → IsSome (again ts rest))
    → IsSome (after_round again current round)
after_round-IsSome command again current stop s k = (current, refl)
after_round-IsSome command again current (next t rest) s k = k (with_track current t) rest s

commands_loop-IsSome :
    (left : ℕ) (command : Bytes) (b : Banks) (existing current : List Track)
    → length command ≤ left
    → IsSome (commands_loop left command b existing current)
unfolding commands_loop
commands_loop-IsSome zero [] b existing current h = (current, refl)
commands_loop-IsSome zero (c ∷ rest) b existing current h = absurd (omega arith)
commands_loop-IsSome (suc left) command b existing current h =
    after_round-IsSome command (λ ts rest. commands_loop left rest b existing ts) current
      (process_command command b existing current)
      (process_command-Shorter command b existing current)
      (λ ts rest lt. commands_loop-IsSome left rest b existing ts (omega arith))

-- For every event, whatever the tables and the tracks before, the loop over the commands of the event
-- ends, within as many rounds as the command has bytes.
pub extract_tracks_from_event_ends :
    (event : Row) (b : Banks) (existing : List Track)
    → (tracks : List Track) × (extract_tracks_from_event event b existing ≡ some tracks)
unfolding extract_tracks_from_event
extract_tracks_from_event_ends event b existing =
    let command = or_empty (get_bytes_field event (codes "Command")) in
    commands_loop-IsSome (length command) command b existing [] (omega arith)
