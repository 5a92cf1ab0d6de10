-- ===== src/Tests/Store/Excluded.antt =====
-- User 4 logs in at node n1, and then tries to log in at node n2 as well.
use cluster_chat_server_with.Prelude.{◌≡◌, refl, true, pos, bytes_eq}
use cluster_chat_server_with.Text.{codes}
use cluster_chat_server_with.Config.{atoi}
use cluster_chat_server_with.Models
use cluster_chat_server_with.Service.Session.{login, refused, in_use}
use cluster_chat_server_with.Cluster.Machine.{cluster_peers}
use cluster_chat_server_with.Cluster.LoggedIn.{is_admitted}
use cluster_chat_server_with.Cluster.Excluded.{Knocks, login_once}
use cluster_chat_server_with.Tests.Service.{loop_now, here_now}
use cluster_chat_server_with.Tests.Store.{server, server-IsStore, clock, wall_ms, plane}
use cluster_chat_server_with.Tests.Store.Sessions.{server-IsKeyed}
use cluster_chat_server_with.Tests.Store.Reached.{
  rows, receiver, sender, receiver-CanLogIn, sender-Shares,
}
use cluster_chat_server_with.Tests.Cluster.{json, hash}

sender-Knocks :
    Knocks server server-IsStore server-IsKeyed clock wall_ms rows json hash loop_now here_now
      (pos 4)
      (codes "pw")
      sender
unfolding Models.query_user atoi bytes_eq
sender-Knocks = record { in_cluster = refl; is_right = refl }

login_once_example :
    (is_admitted
        (login
          (cluster_peers plane rows json hash)
          loop_now
          here_now
          6
          (pos 4)
          (codes "pw")
          receiver).0
      ≡ true)
    × ((login
          (cluster_peers plane rows json hash)
          loop_now
          here_now
          7
          (pos 4)
          (codes "pw")
          sender).0
        ≡ refused in_use)
    × ((login
          (cluster_peers plane rows json hash)
          loop_now
          here_now
          7
          (pos 4)
          (codes "pw")
          sender).1.buckets
        ≡ sender.buckets)
login_once_example =
    login_once server server-IsStore server-IsKeyed clock wall_ms rows json hash loop_now here_now 6
      7 (pos 4) (codes "pw") (codes "pw") receiver sender receiver-CanLogIn sender-Shares
      sender-Knocks
