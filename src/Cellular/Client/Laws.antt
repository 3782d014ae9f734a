-- ===== src/Cellular/Client/Laws.antt =====
-- What the client does, whatever the modem answers.
use kos_ce_extra.Prelude.{
  ℕ, zero, suc, ◌<◌, Bool, true, false, none, some, List, [], ◌∷◌, take, replicate, Text, ◌==◌,
  if◌then◌else◌, Bool-cases, ◌⊎◌, inl, inr, ◌↔◌, ◌≢◌, ◌≡◌, refl, sym, ap, ◌∙◌, arith,
}
use kos_ce_extra.Cellular.Memory.{done}
use kos_ce_extra.Cellular.Pdu.{drop_plus, ascii_to_pdu}
use kos_ce_extra.Cellular.Pdu.Reading.{Message, read_message}
use kos_ce_extra.Cellular.Pdu.RoundTrip.{read_message-ascii_to_pdu}
use kos_ce_extra.Cellular.Pdu.Encoding.{IsNumber}
use kos_ce_extra.Cellular.Client.{
  Ret, success, mbim_status, is_success, is_negative, Modem, wait_sim_ready, is_registered,
  wait_registered, sms_text, timeout_s, exit_failure, crashed, Run, give_up, send_message,
  with_modem, sms_main,
}

-- The text to the addressee.
abbrev pub greeting : Text → Message
greeting dest = record { smsc = none; dest = drop_plus dest; text = sms_text }

-- A run that closes what it opens, and that fails, or sends the text to the addressee, once.
abbrev pub IsClean : {S : Type 0} → Text → Run S → Type 0
IsClean dest r =
    (r.closed ≡ r.opened)
    × (((r.sent ≡ []) × (r.exit ≡ exit_failure))
        ⊎ ((pdu : List ℕ) × (r.sent ≡ pdu ∷ [])
            × (read_message pdu ≡ some (greeting dest))
            × (r.exit ≢ crashed)))

wait_sim_ready-status :
    {S : Type 0} (m : Modem S) (seconds : ℕ) (s : S) (status : ℕ)
    → (m.info_sim s).0.0 ≡ mbim_status status
    → wait_sim_ready m (suc seconds) s ≡ (mbim_status status, (m.info_sim s).1)
unfolding wait_sim_ready
wait_sim_ready-status m seconds s status e = rw e

if-IsClean :
    {S : Type 0} (dest : Text) (r r' : Run S) (b : Bool)
    → IsClean dest r
    → IsClean dest r'
    → IsClean dest (if b then r else r')
if-IsClean dest r r' true h k = h
if-IsClean dest r r' false h k = k

module _ {S : Type 0} (m : Modem S) (dest : Text) (number : IsNumber dest) where
  encoded :
      (n : ℕ) × (out : List ℕ) × (ascii_to_pdu none
          (some dest)
          (some sms_text)
          (some (replicate 256 0))
          256
        ≡ done (n, out))
      × (read_message (take n out) ≡ some (greeting dest))
  encoded =
      read_message-ascii_to_pdu none dest sms_text (replicate 256 0) (omega arith) (omega arith) tt
        number (omega arith) (omega arith)

  sent_once :
      (s : S)
      → (pdu : List ℕ) × ((send_message m dest s).sent ≡ pdu ∷ [])
        × (read_message pdu ≡ some (greeting dest))
        × ((send_message m dest s).exit ≢ crashed)
        × ((send_message m dest s).closed ≡ (send_message m dest s).opened)
  unfolding send_message
  sent_once s =
      let (n, out, e, r) = encoded in
      (
        take n out,
        rw (send_message, e),
        r,
        rw (send_message, e) (ground arith),
        rw (send_message, e),
      )

  sent_once-IsClean : (s : S) → IsClean dest (send_message m dest s)
  sent_once-IsClean s = let (pdu, e, r, x, c) = sent_once s in (c, inr (pdu, e, r, x))

  give_up-IsClean : (s : S) → IsClean dest (give_up m dest s)
  unfolding give_up
  give_up-IsClean s = (refl, inl (refl, refl))

  with_modem-IsClean : (s : S) → IsClean dest (with_modem m dest s)
  unfolding with_modem
  with_modem-IsClean s =
      let sim = wait_sim_ready m timeout_s s in
      let net = wait_registered m timeout_s sim.1 in
      if-IsClean dest _ _ (is_negative sim.0) (give_up-IsClean sim.1)
        (if-IsClean dest _ _ (is_negative net.0) (give_up-IsClean net.1) (sent_once-IsClean net.1))

  -- For a number of at most twelve digits, `main` closes the modem if it opened it, and writes to
  -- no byte outside its buffer. It fails and sends nothing, or it sends one message, from which a
  -- receiver reads the number and the text.
  pub sms_main_lem : (s : S) → IsClean dest (sms_main m dest s)
  unfolding sms_main
  sms_main_lem s =
      let (exists, s1) = m.wait_for_iface s in
      let (ret, s2) = m.open_device s1 in
      if-IsClean dest _ _ exists
        (if-IsClean dest _ _ (is_success ret) (with_modem-IsClean s2) (refl, inl (refl, refl)))
        (refl, inl (refl, refl))

  -- An MBIM status instead of the state of the SIM card does not stop the client: it waits for the
  -- registration and sends the message.
  sim_status_ignored :
      (s : S) (status : ℕ)
      → (m.info_sim s).0.0 ≡ mbim_status status
      → (wait_registered m timeout_s (m.info_sim s).1).0 ≡ success
      → (with_modem m dest s).sent ≢ []
  unfolding with_modem
  sim_status_ignored s status e k =
      let (pdu, sent, r, x, c) = sent_once (wait_registered m 30 (m.info_sim s).1).1 in
      let waited = wait_sim_ready-status m 29 s status e in
      rw (with_modem, waited, k, sent) (λ none_sent. cc)

module _ {S : Type 0} (m : Modem S) where
  -- What the modem is in before the round `i`, if the rounds before it only waited.
  abbrev pub after : ℕ → S → S
  after zero s = s
  after (suc i) s = after i (m.sleep (m.info_register_state s).1)

  abbrev pub answer : ℕ → S → Ret × ℕ
  answer i s = (m.info_register_state (after i s)).0

  -- An answer that is neither an error nor a decision.
  abbrev pub IsPending : Ret × ℕ → Type 0
  IsPending a = (a.0 ≡ success) × (is_registered m a.1 ≡ false) × ((a.1 == m.state_denied) ≡ false)

  all-IsPending :
      (s : S) (k : ℕ)
      → IsPending (answer 0 s)
      → ((i : ℕ) → i < k → IsPending (answer i (after 1 s)))
      → (i : ℕ) → i < suc k
      → IsPending (answer i s)
  all-IsPending s k first others zero h = first
  all-IsPending s k first others (suc i) h = others i (omega arith)

  -- The first decision comes in the round `k`, and it is a registration.
  abbrev pub Registers : ℕ → S → ℕ → Type 0
  Registers seconds s k =
      (k < seconds)
      × ((i : ℕ) → i < k → IsPending (answer i s))
      × ((answer k s).0 ≡ success)
      × (is_registered m (answer k s).1 ≡ true)

  wait_registered-pending :
      (seconds : ℕ) (s : S)
      → IsPending (answer 0 s)
      → wait_registered m (suc seconds) s ≡ wait_registered m seconds (after 1 s)
  unfolding wait_registered
  wait_registered-pending seconds s (ok, no_state, no_denial) = rw (ok, no_state, no_denial)

  wait_registered_finds :
      (seconds : ℕ) (s : S)
      → (wait_registered m seconds s).0 ≡ success
      → (k : ℕ) × Registers seconds s k
  unfolding wait_registered
  wait_registered_finds zero s e = cc
  wait_registered_finds (suc seconds) s e = elim (Bool-cases (is_registered m (answer 0 s).1)) [
    | inl reg ↦ (0, (omega arith, (λ i h. absurd (omega arith)), ground arith, reg))
    | inr no_state ↦
        let first : IsPending (answer 0 s) = (ground arith, no_state, ground arith) in
        let (k, found) =
          wait_registered_finds seconds (after 1 s)
            (sym (ap (λ (r : Ret × S). r.0) (wait_registered-pending seconds s first)) ∙ e) in
        (suc k, (omega (arith, found.0), all-IsPending s k first found.1, found.2, found.3))
  ]

  wait_registered_found :
      (seconds k : ℕ) (s : S) → Registers seconds s k → (wait_registered m seconds s).0 ≡ success
  unfolding wait_registered
  wait_registered_found zero k s h = absurd (omega (arith, h.0))
  wait_registered_found (suc seconds) zero s (lt, pending, ok, reg) = rw (wait_registered, ok, reg)
  wait_registered_found (suc seconds) (suc k) s (lt, pending, ok, reg) =
      rw (wait_registered-pending seconds s (pending 0 (omega arith))) (
        wait_registered_found seconds k (after 1 s)
          (omega arith, (λ i h. pending (suc i) (omega arith)), ok, reg))

  -- `WaitRegistered` succeeds exactly where the modem reports one of the three states of a
  -- registration in some round within the time, and no round before it reported an error, a
  -- registration or a denial.
  wait_registered_iff :
      (seconds : ℕ) (s : S)
      → ((wait_registered m seconds s).0 ≡ success) ↔ ((k : ℕ) × Registers seconds s k)
  wait_registered_iff seconds s =
      (wait_registered_finds seconds s, λ h. wait_registered_found seconds h.0 s h.1)
