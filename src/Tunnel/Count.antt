-- ===== src/Tunnel/Count.antt =====
-- The last number of clients in a list of outputs.
use connecttool_qt.Base.{ℕ, ◌≡◌, refl, List, [], ◌∷◌, ◌++◌, arith}
use connecttool_qt.Base.Key.{nat_key}
use connecttool_qt.Multiplex.Packet.{ClientId, Packet}
use connecttool_qt.Multiplex.Manager.{Effect}
use connecttool_qt.Tunnel.State.{Output, on_socket, passed, write, client_count, read, accept}
use connecttool_qt.Tunnel.Poll.{effects_on, passed_on}
use connecttool_qt.Tunnel.Server.{send_to_all}

-- The last number that is reported, given the one that was reported before.
abbrev pub last_count : ℕ → List Output → ℕ
last_count n [] = n
last_count n (on_socket conn e ∷ os) = last_count n os
last_count n (passed conn id packet ∷ os) = last_count n os
last_count n (write client bytes ∷ os) = last_count n os
last_count n (client_count k ∷ os) = last_count k os
last_count n (read socket id ∷ os) = last_count n os
last_count n (accept ∷ os) = last_count n os

pub last_count-append :
    (n : ℕ) (os rest : List Output) → last_count n (os ++ rest) ≡ last_count (last_count n os) rest
last_count-append n [] rest = refl
last_count-append n (on_socket conn e ∷ os) rest = last_count-append n os rest
last_count-append n (passed conn id packet ∷ os) rest = last_count-append n os rest
last_count-append n (write client bytes ∷ os) rest = last_count-append n os rest
last_count-append n (client_count k ∷ os) rest = last_count-append k os rest
last_count-append n (read socket id ∷ os) rest = last_count-append n os rest
last_count-append n (accept ∷ os) rest = last_count-append n os rest

pub last_count-passed_on :
    (n conn : ℕ) (packets : List (ClientId × Packet)) → last_count n (passed_on conn packets) ≡ n
last_count-passed_on n conn [] = refl
last_count-passed_on n conn (p ∷ packets) = last_count-passed_on n conn packets

pub last_count-effects_on :
    (n conn : ℕ) (effects : List Effect) → last_count n (effects_on conn effects) ≡ n
last_count-effects_on n conn [] = refl
last_count-effects_on n conn (e ∷ effects) = last_count-effects_on n conn effects

pub last_count-send_to_all :
    (n : ℕ) (bytes : List ℕ) (excluded : ℕ) (clients : List ℕ)
    → last_count n (send_to_all bytes excluded clients) ≡ n
unfolding send_to_all
last_count-send_to_all n bytes excluded [] = refl
last_count-send_to_all n bytes excluded (client ∷ clients) =
    ground (arith, last_count-send_to_all n bytes excluded clients)
