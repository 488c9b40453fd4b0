-- ===== src/Tests.antt =====
-- Runs of the models on concrete input, and the theorems at such input.
mod FramingTests
mod MaestroTests
mod SonyTests
mod RuntimeTests
mod RetryTests
mod RssiTests
mod CommandTests
mod ScanTests
mod StreamTests
mod MessageTests
mod ConnectionTests
mod ProviderTests
mod ManagementTests
mod PairingTests
mod PublishedTests
mod ObexTests
mod SignalTests
mod KeyTests
