-- ===== src/UdpClient/Tests.antt =====
-- UDP clients on the network in memory.
use structlog.Common.{ℕ, false, none, some, List, [], ◌∷◌, ◌++◌, ◌≡◌, refl, codes, map}
use structlog.Common.Int.{pos}
use structlog.Network.Loopback.{loopback, loopback-Descriptors, quiet}
use structlog.UdpClient.{UdpClient, create, cleanup}
use structlog.UdpClient.Datagrams.{Posts, log_all, kept, log_all-posts}

-- A host's name is refused, where its number is not.
refuses_names :
    ((create loopback (codes "localhost") (pos 9000) (quiet 0)).0 ≡ none)
    × ((create loopback (codes "127.0.0.1") (pos 9000) (quiet 0)).0
        ≡ some (record { socket = some 3; sock_addr = 1; port = pos 9000 }))
unfolding create
refuses_names = (refl, refl)

-- The network in memory keeps the address and the port of the test.
loopback-Posts : Posts loopback
loopback-Posts = record {
  datagrams = λ w. w.datagrams;
  send_to_datagrams = λ s a port bytes w. refl;
}

abbrev host : List ℕ
host = codes "127.0.0.1"

abbrev texts : List (List ℕ)
texts = codes "one" ∷ codes "two" ∷ []

abbrev client : UdpClient
client = record { socket = some 3; sock_addr = 1; port = pos 9000 }

log_all-posts_example :
    let w1 = (create loopback host (pos 9000) (quiet 0)).1 in
    let (oks, w') = log_all loopback texts client w1 in
    (a : ℕ) × (loopback.inet_aton host ≡ some a)
    × (w'.datagrams ≡ w1.datagrams ++ map (λ m. (a, pos 9000, m)) (kept oks texts))
    × ((t : ℕ) → (cleanup loopback (some 3) w').is_open t ≡ false)
unfolding loopback-Descriptors loopback-Posts create
log_all-posts_example =
    log_all-posts loopback loopback-Descriptors loopback-Posts host (pos 9000) texts (quiet 0)
      client refl
