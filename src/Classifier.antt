-- ===== src/Classifier.antt =====
-- backend/app/classifier: the results that are made of the network's output, and the golden set. The
-- network with its softmax and the reading of the TIFFs are outside.
mod Inference
mod GoldenReplay
pub mod Labels
pub mod Reports
unfoldable pub use Inference.*
unfoldable pub use GoldenReplay.*
