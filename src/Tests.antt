-- ===== src/Tests.antt =====
-- Tests of the definitions on concrete data.
mod Tables
mod Columns
mod Postings
mod Submissions
mod Amounts
mod Lifecycles
mod Rows
mod Lending
mod Screening
mod Trading
mod Wages
