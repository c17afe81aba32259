-- ===== src/Client/Echo/Scenarios.antt =====
-- The other tests of TestClient/TestClient.cpp: `Test_Single`, `Test_Split` and `Test_Throughput`,
-- from a connection to their result.
use jhshin_server.Common.{
  ℕ, zero, suc, ◌+◌, ◌-◌, ◌≤◌, ◌≡◌, ap, ◌∙◌, List, ◌++◌, append_assoc, length, length-drop, take,
  drop, take-append-take, if◌then◌else◌, arith,
}
use jhshin_server.Client.Socket.{Outcome, done, failed, unfinished, Socket}
use jhshin_server.Client.Transfer.{send_all, Sent, send_all-Sent}
use jhshin_server.Client.Echo.{make_packet, same_bytes, recv_packet, ◌>>=◌}

module _ (socket : Socket) where
  open socket use {S, taken}

  -- `RecvPacket`, and `echo == body`.
  unfoldable pub recv_echo : List ℕ → S → Outcome (Unit {0}) × S
  recv_echo body s =
      ◌>>=◌ socket (recv_packet socket s)
        (λ packet s'. if same_bytes packet.1 body then (done tt, s') else (failed, s'))

  unfoldable pub test_single : List ℕ → S → Outcome (Unit {0}) × S
  unfolding recv_echo
  test_single body s =
      ◌>>=◌ socket (send_all socket (make_packet body) (length (make_packet body)) s)
        (λ _ s'. recv_echo body s')

  -- `SendAll( s, pkt.data(), cut )` and then the rest.
  unfoldable pub send_split : ℕ → List ℕ → S → Outcome (Unit {0}) × S
  send_split cut pkt s =
      ◌>>=◌ socket (send_all socket pkt cut s)
        (λ _ s'. send_all socket (drop cut pkt) (length pkt - cut) s')

  unfoldable pub test_split : List ℕ → S → Outcome (Unit {0}) × S
  unfolding send_split recv_echo
  test_split body s = ◌>>=◌ socket (send_split 2 (make_packet body) s) (λ _ s'. recv_echo body s')

  -- The loop of `Test_Throughput`; the echoes are not compared.
  unfoldable pub test_throughput : ℕ → List ℕ → S → Outcome (Unit {0}) × S
  test_throughput zero body s = (done tt, s)
  test_throughput (suc count) body s =
      ◌>>=◌ socket (send_all socket (make_packet body) (length (make_packet body)) s)
        (λ _ s1. ◌>>=◌ socket (recv_packet socket s1) (λ _ s2. test_throughput count body s2))

  -- A packet that is sent in two parts is sent as `SendAll` of the whole sends it.
  pub send_split-Sent :
      (cut : ℕ) (pkt : List ℕ) (s : S)
      → cut ≤ length pkt
      → Sent socket pkt (length pkt) (taken s) (send_split cut pkt s)
  unfolding send_split
  send_split-Sent cut pkt s le =
      first (send_all socket pkt cut s) (send_all-Sent socket pkt cut s le)
    where
      part :
          (n : ℕ)
          → (taken s ++ take cut pkt) ++ take n (drop cut pkt) ≡ taken s ++ take (cut + n) pkt
      part n =
          append_assoc (taken s) (take cut pkt) (take n (drop cut pkt))
          ∙ ap (λ bytes. taken s ++ bytes) (take-append-take cut n pkt)

      second :
          (before : List ℕ) (o : Outcome (Unit {0}) × S)
          → before ≡ taken s ++ take cut pkt
          → Sent socket (drop cut pkt) (length pkt - cut) before o
          → Sent socket pkt (length pkt) (taken s) o
      second before (done _, s') e sent =
          sent
          ∙ ap (λ b. b ++ take (length pkt - cut) (drop cut pkt)) e
          ∙ part (length pkt - cut)
          ∙ ap (λ n. taken s ++ take n pkt) (omega (arith, le))
      second before (failed, s') e (n, less, sent) =
          (cut + n, omega (arith, less, le), sent ∙ ap (λ b. b ++ take n (drop cut pkt)) e ∙ part n)
      second before (unfinished, s') e never = never

      first :
          (o : Outcome (Unit {0}) × S)
          → Sent socket pkt cut (taken s) o
          → Sent socket pkt
              (length pkt)
              (taken s)
              (◌>>=◌ socket o (λ _ s'. send_all socket (drop cut pkt) (length pkt - cut) s'))
      first (done _, s') sent =
          second (taken s') (send_all socket (drop cut pkt) (length pkt - cut) s') sent (
            send_all-Sent socket (drop cut pkt) (length pkt - cut) s'
              (omega (arith, length-drop cut pkt)))
      first (failed, s') (n, less, sent) = (n, omega (arith, less, le), sent)
      first (unfinished, s') never = never
