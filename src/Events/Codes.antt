-- ===== src/Events/Codes.antt =====
-- How the event bytes, the event structs and the names correspond (src/Events.h, src/BaseFSM.h).
use Prim.Native.String.{String}
use text.Mathlib.Text.{◌==◌}
use modem_tester.Common.{
  ℕ, ◌≡◌, ◌≢◌, ◌↔◌, refl, sym, ap, ◌∙◌, Option, none, some, if◌then◌else◌, arith,
}
use modem_tester.Events.{
  Event, availability_mode_command, throughput_mode_command, end_mode_command, remote_ack,
  master_ack, timeout, end_test, event_id, to_byte, decode, event_name,
}

decode-code : (e : Event) → e ≢ timeout → decode (to_byte (event_id e)) ≡ some e
unfolding decode
decode-code timeout h = absurd (h refl)
decode-code _ h = refl

pub decode_sound :
    (b : ℕ) (e : Event) → decode b ≡ some e → (b ≡ to_byte (event_id e)) × (e ≢ timeout)
unfolding decode
decode_sound b e h = ground arith

-- HandleReadEvt turns a byte into an event exactly when the byte is the event's code and the event
-- is not Timeout, which has no code of its own on the line.
pub decode_iff :
    (b : ℕ) (e : Event) → (decode b ≡ some e) ↔ ((b ≡ to_byte (event_id e)) × (e ≢ timeout))
decode_iff b e = (decode_sound b e, λ h. ground (arith, decode-code e h.1))

-- Reading back a printed name gives the event, so different events print different names.
event_named : Option String → Option Event
event_named none = none
event_named (some s) =
    if s == "AvailabilityModeCommand"
    then some availability_mode_command
    else if s == "ThroughputModeCommand"
    then some throughput_mode_command
    else if s == "EndModeCommand"
    then some end_mode_command
    else if s == "RemoteAck"
    then some remote_ack
    else if s == "MasterAck"
    then some master_ack
    else if s == "Timeout"
    then some timeout
    else if s == "EndTest"
    then some end_test
    else none

event_named-name : (e : Event) → event_named (event_name (event_id e)) ≡ some e
unfolding event_named event_name
event_named-name timeout = refl
event_named-name _ = refl

-- Events that print the same name are the same event.
pub event_name_injective : (d e : Event) → event_name (event_id d) ≡ event_name (event_id e) → d ≡ e
event_name_injective d e h = cc (sym (event_named-name d) ∙ ap event_named h ∙ event_named-name e)
