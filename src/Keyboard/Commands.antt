-- ===== src/Keyboard/Commands.antt =====
-- Kernel/src/IO/Keyboard.cpp: `SendCommand`. What the keyboard answers is a list of events, each
-- with the two bytes that the port gives; none stands for waiting that does not end.
use waifu_os.Prelude.{
  ℕ, zero, suc, ◌+◌, ◌≡◌, refl, ◌⊎◌, inl, inr, true, false, ◌&&◌, ◌||◌, Option, none, some, List,
  [], ◌∷◌, ◌++◌, arith, ltb, ◌==◌, if◌then◌else◌, get_or, ◌>>=◌,
}
use waifu_os.Keyboard.Events.{
  Keyboard, response_event, outb, resend, err0, err1, test_pass, echo, resend_response, test_fail1,
  test_fail2,
}

-- `while (!cmdResponse) hlt;`: the events that come while a command is under way.
unfoldable pub wait_response : Keyboard → List (ℕ × ℕ) → Option (Keyboard × List (ℕ × ℕ))
wait_response k [] = if k.cmd_response == 0 then none else some (k, [])
wait_response k ((sc1, sc2) ∷ events) =
    let rest = wait_response (response_event k sc1 sc2) events in
    if k.cmd_response == 0 then rest else some (k, (sc1, sc2) ∷ events)

-- A command ends with a value.
abbrev pub finish : Keyboard → ℕ → Keyboard × ℕ
finish k value = (record k { sending_command = false }, value)

-- The next byte of the data is sent.
unfoldable pub send_data : Keyboard → ℕ → Keyboard
send_data k byte = outb (record k { cmd_response = 0; resend_count = 0; prev_command = byte }) byte

-- The branch for RESEND, which falls through to that for ACK; a missing value counts as true.
unfoldable pub resend_round : Keyboard → ℕ → (Keyboard × ℕ) ⊎ Keyboard
resend_round k byte =
    let (k', result) = resend k in
    let failed = finish (record k' { cmd_response = 0; prev_command = 0 }) err1 in
    elim result [
      | none ↦ inr (send_data k' byte)
      | some sent_again ↦ if sent_again then inr (send_data k' byte) else inl failed
    ]

-- The `switch` of the loop over the data: the end of the command, or the next round.
unfoldable pub data_round : Keyboard → ℕ → (Keyboard × ℕ) ⊎ Keyboard
data_round k byte =
    let response = k.cmd_response in
    if (response == err0) || (response == err1)
    then inl (finish k err1)
    else if (response == test_fail1) || (response == test_fail2)
    then inl (finish k test_fail2)
    else if response == echo
    then inl (finish k echo)
    else if response == resend_response
    then resend_round k byte
    else if response == test_pass
    then inl (finish k test_pass)
    else inr (send_data k byte)

-- The end of `SendCommand`.
unfoldable pub last_response : Keyboard → List (ℕ × ℕ) → Option (Keyboard × ℕ)
last_response k events =
    wait_response k events >>= λ waited. some (finish waited.0 waited.0.cmd_response)

-- `while (index > datacount)`, on as many rounds as there may be.
unfoldable pub data_loop :
    (rounds index datacount : ℕ) → List ℕ → Keyboard → List (ℕ × ℕ) → Option (Keyboard × ℕ)
data_loop zero index datacount data_bytes k events = none
data_loop (suc rounds) index datacount data_bytes k events =
    let next : Keyboard → List (ℕ × ℕ) → Option (Keyboard × ℕ) =
      data_loop rounds (index + 1) datacount data_bytes in
    let body = wait_response k events >>= λ waited.
    elim (data_round waited.0 (get_or data_bytes index 0)) [
      | inl ended ↦ some ended
      | inr going ↦ next going waited.1
    ] in
    if ltb datacount index then body else last_response k events

-- `SendCommand`
unfoldable pub send_command : Keyboard → ℕ → List ℕ → ℕ → List (ℕ × ℕ) → Option (Keyboard × ℕ)
send_command k cmd data_bytes datacount events =
    data_loop (suc datacount) 0 datacount data_bytes
      (outb (record k { cmd_response = 0; prev_command = cmd; sending_command = true }) cmd) events

-- The answer to a command: the first byte that comes, where a failed test is told by its second byte
-- and the two codes of an error are one.
abbrev pub answer : ℕ → ℕ → ℕ
answer sc1 sc2 =
    if sc1 == err0
    then err1
    else if (sc1 == test_fail1) && (sc2 == test_fail2)
    then test_fail2
    else sc1

response_event_lem :
    (k : Keyboard) (sc1 sc2 : ℕ)
    → ((response_event k sc1 sc2).cmd_response ≡ answer sc1 sc2)
      × ((response_event k sc1 sc2).sent ≡ k.sent)
unfolding response_event
response_event_lem k sc1 sc2 = ground arith

answer_nonzero : (sc1 sc2 : ℕ) → (answer sc1 sc2 == 0) ≡ false
answer_nonzero sc1 sc2 = ground arith

wait_response_ready :
    (k : Keyboard) (events : List (ℕ × ℕ))
    → (k.cmd_response == 0) ≡ false
    → wait_response k events ≡ some (k, events)
unfolding wait_response
wait_response_ready k [] ready = rw ready refl
wait_response_ready k ((sc1, sc2) ∷ events) ready = rw ready refl

last_response_lem :
    (k : Keyboard) (sc1 sc2 : ℕ) (events : List (ℕ × ℕ))
    → k.cmd_response ≡ 0
    → last_response k ((sc1, sc2) ∷ events)
      ≡ some (finish (response_event k sc1 sc2) (response_event k sc1 sc2).cmd_response)
unfolding last_response wait_response
last_response_lem k sc1 sc2 events waiting =
    let came : ((response_event k sc1 sc2).cmd_response == 0) ≡ false =
      rw ((response_event_lem k sc1 sc2).0) (answer_nonzero sc1 sc2) in
    let start : (k.cmd_response == 0) ≡ true = ground arith in
    rw (start, wait_response_ready (response_event k sc1 sc2) events came) refl

-- SendCommand sends the byte of the command and none of its data, waits for one event of the
-- keyboard and returns its answer; no command is under way then. This holds for any data, any
-- number of bytes and any further events.
pub send_command_lem :
    (k : Keyboard) (cmd : ℕ) (data_bytes : List ℕ) (datacount sc1 sc2 : ℕ) (events : List (ℕ × ℕ))
    → (k' : Keyboard) × (send_command k cmd data_bytes datacount ((sc1, sc2) ∷ events)
        ≡ some (k', answer sc1 sc2))
      × (k'.sent ≡ k.sent ++ cmd ∷ [])
      × (k'.sending_command ≡ false)
unfolding send_command data_loop
send_command_lem k cmd data_bytes datacount sc1 sc2 events =
    let started : Keyboard =
      outb (record k { cmd_response = 0; prev_command = cmd; sending_command = true }) cmd in
    let answered = response_event started sc1 sc2 in
    let told = response_event_lem started sc1 sc2 in
    let no_data : ltb datacount 0 ≡ false = ground arith in
    (
      record answered { sending_command = false },
      rw (no_data, last_response_lem started sc1 sc2 events refl, told.0) refl,
      told.1,
      refl,
    )
