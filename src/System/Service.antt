-- ===== src/System/Service.antt =====
-- What the library promises, without its memory: transactions and messages in order, connections,
-- and whose turn it is. Addresses, links and fuel are forgotten.
use client_shared_lib.Base.{
  ℕ, suc, ◌+◌, ◌%◌, ◌≡◌, refl, ap, Option, none, some, List, [], ◌∷◌, ◌++◌, str_eq, get_elem?, set,
  if◌then◌else◌, Bool-cases, inl, inr,
}
use client_shared_lib.Base.Int.{ℤ, pos, ◌==ℤ◌}
use client_shared_lib.Mem.{Ptr}
use client_shared_lib.Mem.Seg.{Cells}
use client_shared_lib.Types.{CString, TimeVal, Con, IdEntry, Msg, Globals}
use client_shared_lib.Peers.RoundRobin.{IsUp}
use client_shared_lib.IdQueue.{refreshed}
use client_shared_lib.IdQueue.Add.{entry_at}
use client_shared_lib.IdQueue.Entries.{find, refresh, erase, expired_at}
use client_shared_lib.IdQueue.Entries
use client_shared_lib.MsgQueue.{PushArgs, new_msg}
use client_shared_lib.Connect.{EndPeer, Dial}
use client_shared_lib.Connect.Repair.{redialed}
use client_shared_lib.System.{Op, send, answer, expire, take, drop, restore}

pub record Service : Type 0 where
  pub transactions : List IdEntry
  pub outbox : List Msg
  pub conns : List Con
  pub num_peers : ℕ
  pub turn : ℕ

-- the first transaction with an id
unfoldable pub lookup : CString → List IdEntry → Option IdEntry
lookup tid [] = none
lookup tid (e ∷ es) = if str_eq tid e.id then some e else lookup tid es

-- it is given new times and a new callback
unfoldable pub renew : TimeVal → CString → (f param : Ptr) → List IdEntry → List IdEntry
renew now tid f param [] = []
renew now tid f param (e ∷ es) =
    if str_eq tid e.id then refreshed now f param e ∷ es else e ∷ renew now tid f param es

-- it is over
unfoldable pub remove : CString → List IdEntry → List IdEntry
remove tid [] = []
remove tid (e ∷ es) = if str_eq e.id tid then es else e ∷ remove tid es

-- those whose time is over are marked
unfoldable pub mark : (ℕ → TimeVal) → ℕ → List IdEntry → List IdEntry
mark clock i [] = []
mark clock i (e ∷ es) = expired_at (clock i) e ∷ mark clock (suc i) es

-- without the first message for a connection
unfoldable pub without_first : ℤ → List Msg → List Msg
without_first con [] = []
without_first con (m ∷ ms) = if m.conn ==ℤ con then ms else m ∷ without_first con ms

-- What an operation does to the service.
pub data Does (s : Service) : Op → Service → Type 0 where
  queues_known :
      {k spin : ℕ} {temp ktemp : Ptr} {now : TimeVal} {a : PushArgs} (e : IdEntry)
      → lookup a.tid s.transactions ≡ some e
      → Does s (send k spin temp ktemp now a) (record s {
        transactions = renew now a.tid a.callback_f a.callback_param s.transactions;
        outbox = s.outbox ++ new_msg a (pos e.conn) ∷ [];
      })
  queues_new :
      {k spin : ℕ} {temp ktemp : Ptr} {now : TimeVal} {a : PushArgs} (c : ℕ)
      → lookup a.tid s.transactions ≡ none
      → IsUp s.conns c
      → Does s (send k spin temp ktemp now a) (record s {
        transactions = s.transactions ++ entry_at now a.tid a.callback_f a.callback_param c ∷ [];
        outbox = s.outbox ++ new_msg a (pos c) ∷ [];
        turn = (c + 1) % s.num_peers;
      })
  answers :
      {k : ℕ} {tid : CString}
      → Does s (answer k tid) (record s { transactions = remove tid s.transactions })
  expires :
      {k : ℕ} {clock : ℕ → TimeVal}
      → Does s (expire k clock) (record s { transactions = mark clock 0 s.transactions })
  takes : {k : ℕ} {con : ℤ} → Does s (take k con) (record s { outbox = without_first con s.outbox })
  drops :
      {i : ℕ} (c : Con)
      → get_elem? s.conns i ≡ some c
      → Does s (drop i) (record s { conns = set s.conns i (record c { state = 0 }) })
  restores :
      {pid : ℕ} {peers : List EndPeer} {d : Dial} (c : Con)
      → get_elem? s.conns pid ≡ some c
      → Does s (restore pid peers d) (record s { conns = set s.conns pid (redialed c d) })

-- Any number of operations.
pub data Serves (s : Service) : Service → Type 0 where
  idles : Serves s s
  then_does : {t u : Service} (op : Op) → Serves s t → Does t op u → Serves s u

abbrev pub items : {A : Type 0} → Cells A → List A
items [] = []
items ((p, a) ∷ xs) = a ∷ items xs

-- the service that two queues and the other variables stand for
abbrev pub view : Cells IdEntry → Cells Msg → Globals → Service
view xs ms g = record {
  transactions = items xs;
  outbox = items ms;
  conns = g.conns;
  num_peers = g.num_peers;
  turn = g.rr;
}

pub items-append : {A : Type 0} (xs ys : Cells A) → items (xs ++ ys) ≡ items xs ++ items ys
items-append [] ys = refl
items-append ((p, a) ∷ xs) ys = ap (λ zs. a ∷ zs) (items-append xs ys)

pub lookup-items : (tid : CString) (xs : Cells IdEntry) → lookup tid (items xs) ≡ find tid xs
unfolding lookup find
lookup-items tid [] = refl
lookup-items tid ((p, e) ∷ xs) = rw (lookup-items tid xs) refl

pub items-refresh :
    (now : TimeVal) (tid : CString) (f param : Ptr) (xs : Cells IdEntry)
    → items (refresh now tid f param xs) ≡ renew now tid f param (items xs)
unfolding renew refresh
items-refresh now tid f param [] = refl
items-refresh now tid f param ((p, e) ∷ xs) = elim (Bool-cases (str_eq tid e.id)) [
  | inl hit ↦ rw hit refl
  | inr miss ↦ rw miss (ap (λ es. e ∷ es) (items-refresh now tid f param xs))
]

pub items-erase :
    (tid : CString) (xs : Cells IdEntry) → items (erase tid xs) ≡ remove tid (items xs)
unfolding remove erase
items-erase tid [] = refl
items-erase tid ((p, e) ∷ xs) = elim (Bool-cases (str_eq e.id tid)) [
  | inl hit ↦ rw hit refl
  | inr miss ↦ rw miss (ap (λ es. e ∷ es) (items-erase tid xs))
]

pub items-expire :
    (clock : ℕ → TimeVal) (i : ℕ) (xs : Cells IdEntry)
    → items (Entries.expire clock i xs) ≡ mark clock i (items xs)
unfolding mark Entries.expire
items-expire clock i [] = refl
items-expire clock i ((p, e) ∷ xs) =
    ap (λ es. expired_at (clock i) e ∷ es) (items-expire clock (suc i) xs)
