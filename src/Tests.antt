-- ===== src/Tests.antt =====
-- Runs of the models on concrete inputs, and the theorems applied where their hypotheses hold.
mod StateTests
mod PacketTests
mod HfpTests
mod JitterTests
mod MediaTests
mod AudioTests
mod MediaBridgeTests
mod MessageTests
mod AuthTests
mod StreamTests
mod AncsTests
mod PageTests
mod SendTests
mod GroupTests
mod RuntimeTests
mod CallTests
