-- ===== src/Requests/Reported.antt =====
-- When a client reports that a request was already consumed.
use bdk_ffi.Prelude.{
  ℕ, Bool, Option, none, some, Result, ok, err, map_ok, map_err, ◌≡◌, ◌≢◌, refl, ◌↔◌, arith,
}
use bdk_ffi.Extern.{Primitives}
use bdk_ffi.Errors.Electrum.{ElectrumError, BdkElectrumError, from_electrum}
use bdk_ffi.Errors.Esplora.{EsploraError, BdkEsploraError}
use bdk_ffi.Errors.Esplora.Boxed.{from_esplora_box}
use bdk_ffi.Requests.Library.{ScanLibrary}
use bdk_ffi.Requests.Cell.{take}
use bdk_ffi.Requests.World.{World}
use bdk_ffi.Requests.Electrum
use bdk_ffi.Requests.Esplora

-- A result that is mapped on both sides is an error `c` only if the conversion yields `c`.
mapped-neq-err :
    {A B E F : Type 0} (f : A → B) (g : E → F) (c : F) (r : Result A E)
    → ((e : E) → g e ≢ c)
    → map_ok f (map_err g r) ≢ err c
mapped-neq-err f g c (ok a) never same = ground arith
mapped-neq-err f g c (err e) never same = never e (ground arith)

module _ (P : Primitives) where
  from_electrum-neq-consumed :
      (e : BdkElectrumError P.Payload) → from_electrum P e ≢ ElectrumError.request_already_consumed
  unfolding from_electrum
  from_electrum-neq-consumed (BdkElectrumError.io_error _) same = ground arith
  from_electrum-neq-consumed _ same = ground arith

  from_esplora_box-neq-consumed :
      (e : BdkEsploraError P.Payload) → from_esplora_box P e ≢ EsploraError.request_already_consumed
  unfolding from_esplora_box
  from_esplora_box-neq-consumed (BdkEsploraError.minreq _) same = ground arith
  from_esplora_box-neq-consumed _ same = ground arith

-- What a call does with the content that it takes: it reports `c` exactly if there is none.
report_iff :
    {S R C W : Type 0} (c : C) (w : W) (g : S → Result R C) (never : (a : S) → g a ≢ err c)
    (o : Option S)
    → ((elim o as (λ _. Result R C × W) [ none ↦ (err c, w) | some a ↦ (g a, w) ]).0 ≡ err c)
      ↔ (o ≡ none)
report_iff c w g never none = (λ _. refl, λ _. refl)
report_iff c w g never (some a) = (λ same. elim (never a same) [ ], λ no. ground arith)

module _ (P : Primitives) (L : ScanLibrary P) where
  -- Of each call of a client: it reports "already consumed" exactly if the request is gone.
  abbrev pub ReportsConsumed : ℕ → World P L → Type 0
  ReportsConsumed h w =
      ((client : L.ElectrumClient) (gap batch : ℕ) (fetch : Bool)
        → ((Electrum.full_scan P L client h gap batch fetch w).0
            ≡ err ElectrumError.request_already_consumed)
          ↔ ((take h w.full_requests).0 ≡ none))
      × (((client : L.ElectrumClient) (batch : ℕ) (fetch : Bool)
            → ((Electrum.sync P L client h batch fetch w).0
                ≡ err ElectrumError.request_already_consumed)
              ↔ ((take h w.sync_requests).0 ≡ none))
          × (((client : L.EsploraClient) (gap parallel : ℕ)
                → ((Esplora.full_scan P L client h gap parallel w).0
                    ≡ err EsploraError.request_already_consumed)
                  ↔ ((take h w.full_requests).0 ≡ none))
              × ((client : L.EsploraClient) (parallel : ℕ)
                  → ((Esplora.sync P L client h parallel w).0
                      ≡ err EsploraError.request_already_consumed)
                    ↔ ((take h w.sync_requests).0 ≡ none))))

  -- A client reports "already consumed" exactly if the request is gone or never was: no error of
  -- the library is turned into that report, and with a request that is still there the report is
  -- not made. This holds of the full scan and the sync of both clients.
  pub already_consumed_iff : (h : ℕ) (w : World P L) → ReportsConsumed h w
  unfolding Electrum.full_scan Electrum.sync Esplora.full_scan Esplora.sync
  already_consumed_iff h w = (
    λ client gap batch fetch.
        report_iff _ _ _ (λ _. mapped-neq-err _ _ _ _ (from_electrum-neq-consumed P))
          (take h w.full_requests).0,
    (
      λ client batch fetch.
          report_iff _ _ _ (λ _. mapped-neq-err _ _ _ _ (from_electrum-neq-consumed P))
            (take h w.sync_requests).0,
      (
        λ client gap parallel.
            report_iff _ _ _ (λ _. mapped-neq-err _ _ _ _ (from_esplora_box-neq-consumed P))
              (take h w.full_requests).0,
        λ client parallel.
            report_iff _ _ _ (λ _. mapped-neq-err _ _ _ _ (from_esplora_box-neq-consumed P))
              (take h w.sync_requests).0,
      ),
    ),
  )
