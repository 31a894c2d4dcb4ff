-- ===== src/Locks/Methods.antt =====
-- In which order the methods of the bindings take and release their locks. A guard that is bound to a variable is
-- released at the end of the method, where a guard that is a temporary of the last expression goes last; one that is a
-- temporary of another statement is released at the end of the statement.
use bdk_ffi.Prelude.{ℕ, List, [], ◌∷◌, ◌++◌}

-- The locks: those of wallets, of PSBTs, of connections to a store, of request builders and requests, and of derivation
-- paths, each by its number.
pub data Lock : Type 0 where
  wallet psbt connection request path : ℕ → Lock

pub data Move : Type 0 where
  acquire release : Lock → Move

abbrev pub Program : Type 0
Program = List Move

-- A lock that is held for one statement or for a whole method.
abbrev pub holding : Lock → Program
holding l = acquire l ∷ release l ∷ []

-- `TxBuilder::finish` and `BumpFeeTxBuilder::finish`
unfoldable pub finish_locks : ℕ → Program
finish_locks w = holding (wallet w)

unfoldable pub bump_finish_locks : ℕ → Program
bump_finish_locks w = holding (wallet w)

-- The methods of `Wallet`: those that only read or change the wallet, and those that take two locks.
unfoldable pub wallet_locks : ℕ → Program
wallet_locks w = holding (wallet w)

unfoldable pub new_wallet_locks : ℕ → Program
new_wallet_locks c = holding (connection c)

unfoldable pub load_locks : ℕ → Program
load_locks c = holding (connection c)

unfoldable pub sign_locks : ℕ → ℕ → Program
sign_locks p w = acquire (psbt p) ∷ acquire (wallet w) ∷ release (psbt p) ∷ release (wallet w) ∷ []

unfoldable pub finalize_psbt_locks : ℕ → ℕ → Program
finalize_psbt_locks p w =
    acquire (psbt p) ∷ acquire (wallet w) ∷ release (psbt p) ∷ release (wallet w) ∷ []

unfoldable pub persist_locks : ℕ → ℕ → Program
persist_locks c w =
    acquire (connection c) ∷ acquire (wallet w) ∷ release (connection c) ∷ release (wallet w) ∷ []

-- The methods of `Psbt`
unfoldable pub psbt_locks : ℕ → Program
psbt_locks p = holding (psbt p)

unfoldable pub combine_locks : ℕ → ℕ → Program
combine_locks p other = holding (psbt p) ++ holding (psbt other)

-- What takes a request or its builder, and what copies a derivation path.
unfoldable pub request_locks : ℕ → Program
request_locks r = holding (request r)

unfoldable pub path_locks : ℕ → Program
path_locks k = holding (path k)

-- A call of a method.
pub data Call : Type 0 where
  finish bump_finish on_wallet new_wallet load : ℕ → Call
  sign finalize_psbt persist : ℕ → ℕ → Call
  on_psbt : ℕ → Call
  combine : ℕ → ℕ → Call
  on_request with_path : ℕ → Call

unfoldable pub locks : Call → Program
unfolding finish_locks bump_finish_locks wallet_locks new_wallet_locks load_locks sign_locks
    finalize_psbt_locks persist_locks psbt_locks combine_locks request_locks path_locks
locks (finish w) = finish_locks w
locks (bump_finish w) = bump_finish_locks w
locks (on_wallet w) = wallet_locks w
locks (new_wallet c) = new_wallet_locks c
locks (load c) = load_locks c
locks (sign p w) = sign_locks p w
locks (finalize_psbt p w) = finalize_psbt_locks p w
locks (persist c w) = persist_locks c w
locks (on_psbt p) = psbt_locks p
locks (combine p other) = combine_locks p other
locks (on_request r) = request_locks r
locks (with_path k) = path_locks k

-- What a thread does that makes these calls in turn.
unfoldable pub program : List Call → Program
unfolding locks
program [] = []
program (c ∷ cs) = locks c ++ program cs
